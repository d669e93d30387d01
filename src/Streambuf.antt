-- ===== src/Streambuf.antt =====
-- The two ways in which tutorial/301.chat_server.cpp and tutorial/202.async_tcp_server_streambuf.cpp
-- take data out of an asio::streambuf.
use learn_asio.Base.{
  ℕ, zero, suc, ◌≡◌, refl, true, [], ◌∷◌, ◌++◌, arith, Bytes, lacks, ◌==◌, if◌then◌else◌,
}

-- std::getline on the buffer: the line without its end, and what is left in the buffer.
unfoldable pub getline : Bytes → Bytes × Bytes
getline [] = ([], [])
getline (c ∷ cs) = let rest = getline cs in if c == 10 then ([], cs) else (c ∷ rest.0, rest.1)

-- streambuf::consume, which takes no more than there is.
unfoldable pub consume : ℕ → Bytes → Bytes
consume n [] = []
consume zero (c ∷ cs) = c ∷ cs
consume (suc n) (c ∷ cs) = consume n cs

pub getline_lem :
    (line rest : Bytes) → lacks 10 line ≡ true → getline (line ++ 10 ∷ rest) ≡ (line, rest)
unfolding getline
getline_lem [] rest h = refl
getline_lem (c ∷ line) rest h = ground (arith, getline_lem line rest)

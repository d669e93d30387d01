-- ===== src/CString.antt =====
-- What a stream prints of a char*: tutorial/102.tcp_client.cpp and tutorial/104.udp_client.cpp print
-- their buffers so.
use learn_asio.Base.{
  ◌≡◌, refl, true, Option, none, some, [], ◌∷◌, ◌++◌, arith, Bytes, lacks, ◌==◌, if◌then◌else◌,
}

-- The bytes before the first NUL. Without one, the stream reads behind the buffer, which has no
-- defined meaning: `none`.
unfoldable pub c_string : Bytes → Option Bytes
c_string [] = none
c_string (c ∷ cs) =
    let rest = c_string cs in
    if c == 0 then some [] else elim rest [ none ↦ none | some s ↦ some (c ∷ s) ]

pub c_string_lem : (s rest : Bytes) → lacks 0 s ≡ true → c_string (s ++ 0 ∷ rest) ≡ some s
unfolding c_string
c_string_lem [] rest h = refl
c_string_lem (c ∷ s) rest h = ground (arith, h, c_string_lem s rest)

pub c_string-none : (s : Bytes) → lacks 0 s ≡ true → c_string s ≡ none
unfolding c_string
c_string-none [] h = refl
c_string-none (c ∷ s) h = ground (arith, h, c_string-none s)

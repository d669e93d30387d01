-- ===== src/Tests/Toy.antt =====
-- A parser with the interface of http_parser: a request is "G" and the URL, in one piece; "+" and
-- more is a part of one, after which the input may not end; anything else is an error.
use learn_asio.Base.{ℕ, true, false, [], ◌∷◌, List, Bytes, ◌==◌, if◌then◌else◌}
use learn_asio.HttpParser.{
  HttpParser, Callback, http_get, on_url, on_message_complete, on_message_begin,
}

pub data Phase : Type 0 where
  ready partial done broken : Phase

abbrev run : Phase → Bytes → Phase × List Callback
run broken bytes = (broken, [])
run partial [] = (broken, [])
run ready [] = (ready, [])
run done [] = (done, [])
run phase (c ∷ rest) =
    if c == 71
    then (done, on_message_begin ∷ on_url rest ∷ on_message_complete ∷ [])
    else if c == 43
    then (partial, on_url rest ∷ [])
    else (broken, [])

abbrev errno : Phase → ℕ
errno broken = 1
errno _ = 0

abbrev pub toy : HttpParser
toy = record {
  Parser = Phase;
  init = ready;
  execute = run;
  http_errno = errno;
  major = λ p. 1;
  minor = λ p. 1;
  verb = λ p. http_get;
  status_code = λ p. 0;
  should_keep_alive = λ p. true;
  upgraded = λ p. false;
}

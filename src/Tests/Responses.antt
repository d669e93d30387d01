-- ===== src/Tests/Responses.antt =====
-- The theorems on responses at concrete inputs.
use mathlib.Core.List.{Perm}
use mathlib.Core.List.Perm
use learn_asio.Base.{◌≡◌, refl, some, codes, concat}
use learn_asio.Base.Assoc.{Assoc}
use learn_asio.Base.Decimal.{to_decimal}
use learn_asio.Response.{Response, stock_response, to_buffers}
use learn_asio.Response.Texts.{not_found}
use learn_asio.Response.Date.{Tm, put_time}
use learn_asio.Response.Reader.{read_response}
use learn_asio.Response.Status.{status_line}
use learn_asio.Response.Wire.{read_response-to_buffers}
use learn_asio.Tests.Toy.{toy, Phase}

-- Sunday, 6 November 1994, 08:49:37.
abbrev pub some_day : Tm
some_day = record { sec = 37; min = 49; hour = 8; mday = 6; mon = 10; year = 94; wday = 0 }

put_time_example : put_time some_day ≡ codes "Sun, 06 Nov 1994 08:49:37 GMT"
unfolding put_time to_decimal
put_time_example = refl

-- An order in which the map may be walked: as it stands.
abbrev pub same_order : Assoc → Assoc
same_order m = m

abbrev pub missing : Response Phase
missing = stock_response toy not_found

read_response-to_buffers_example :
    let (r', buffers) = to_buffers same_order some_day missing in
    (hs : Assoc) × (read_response (concat buffers)
      ≡ some (status_line not_found, hs, missing.content))
    × Perm hs r'.message.headers
unfolding stock_response to_decimal
read_response-to_buffers_example =
    read_response-to_buffers same_order some_day missing (λ m. Perm.refl m) refl

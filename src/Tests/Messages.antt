-- ===== src/Tests/Messages.antt =====
-- The theorems on messages at concrete inputs.
use learn_asio.Base.{◌≡◌, refl, true, some, [], ◌∷◌, codes}
use learn_asio.Base.Assoc.{lookup, insert}
use learn_asio.Message.{Message, complete, run_callbacks, parse, new_message, get}
use learn_asio.Message.Headers.{HeaderLine, block_callbacks, block_callbacks-lookup}
use learn_asio.Message.Joined.{block_callbacks-joined}
use learn_asio.Message.Outcome.{Copied, parse-message_status}
use learn_asio.Tests.Toy.{toy, Phase, done}

abbrev fresh : Message Phase
fresh = new_message toy

abbrev host : HeaderLine
host = record { names = codes "Ho" ∷ codes "st" ∷ []; values = codes "git" ∷ codes "hub" ∷ [] }

abbrev dnt : HeaderLine
dnt = record { names = codes "DNT" ∷ []; values = codes "1" ∷ [] }

abbrev blank : HeaderLine
blank = record { names = codes "X" ∷ []; values = [] ∷ [] }

block_callbacks-lookup_example :
    let m' = run_callbacks (block_callbacks (host ∷ dnt ∷ [])) fresh in
    (lookup (codes "Host") m'.headers ≡ some (codes "github"))
    × (m' ≡ record fresh { headers = m'.headers })
unfolding new_message lookup
block_callbacks-lookup_example =
    block_callbacks-lookup (host ∷ dnt ∷ []) fresh (codes "Host") ((refl, refl), ((refl, refl), tt))
      (refl, refl)

block_callbacks-joined_example :
    run_callbacks (block_callbacks (blank ∷ dnt ∷ host ∷ blank ∷ [])) fresh ≡ record fresh {
      headers = (codes "XDNT", codes "1") ∷ (codes "Host", codes "github") ∷ [];
      current_header_field = codes "X";
    }
unfolding new_message insert
block_callbacks-joined_example =
    block_callbacks-joined (blank ∷ dnt ∷ host ∷ blank ∷ []) fresh
      (refl, (refl, (refl, (refl, tt)))) (refl, refl)

parse-message_status_example :
    let m' = parse toy fresh (codes "G/index") in
    (m'.message_status ≡ complete) × Copied toy true done fresh m'
unfolding new_message
parse-message_status_example = parse-message_status toy fresh (codes "G/index")

method_copied : (parse toy fresh (codes "G/index")).method ≡ get
unfolding new_message parse
method_copied = refl

abbrev answered : Message Phase
answered = parse toy fresh (codes "G/a")

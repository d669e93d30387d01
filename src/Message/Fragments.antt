-- ===== src/Message/Fragments.antt =====
-- What the callbacks of src/common/message.cpp make of the same texts in other pieces.
use learn_asio.Base.{
  Option, none, some, ◌≡◌, refl, ap, ◌∙◌, Bool, true, not, ◌&&◌, ◌||◌, List, [], ◌∷◌, ◌++◌, arith,
  append_assoc, Bytes, is_empty,
}
use learn_asio.HttpParser.{Callback, on_url, on_status, on_header_field, on_header_value, on_body}
use learn_asio.Message.{Message, save_headers, callback, run_callbacks}

-- Two pieces of the same text that follow each other, as one.
abbrev pub as_one : Callback → Callback → Option Callback
as_one (on_url a) (on_url b) = some (on_url (a ++ b))
as_one (on_status a) (on_status b) = some (on_status (a ++ b))
as_one (on_header_field a) (on_header_field b) = some (on_header_field (a ++ b))
as_one (on_header_value a) (on_header_value b) = some (on_header_value (a ++ b))
as_one (on_body a) (on_body b) = some (on_body (a ++ b))
as_one _ _ = none

abbrev pub join : Callback → List Callback → List Callback
join c [] = c ∷ []
join c (d ∷ cs) = elim (as_one c d) [ none ↦ c ∷ d ∷ cs | some e ↦ e ∷ cs ]

abbrev pub joined : List Callback → List Callback
joined [] = []
joined (c ∷ cs) = join c (joined cs)

module _ {P : Type 0} where
  -- No value is pending without a name.
  abbrev pub orderly : Message P → Bool
  orderly m = is_empty m.current_header_value || not (is_empty m.current_header_field)

  abbrev pub stays_orderly : List Callback → Message P → Bool
  stays_orderly [] m = true
  stays_orderly (c ∷ cs) m = orderly m && stays_orderly cs (callback c m)

  field_pieces :
      (a b : Bytes) (m : Message P)
      → orderly m ≡ true
      → callback (on_header_field (a ++ b)) m
        ≡ callback (on_header_field b) (callback (on_header_field a) m)
  unfolding callback save_headers
  field_pieces a b m h = ground (arith, append_assoc m.current_header_field a b)

  callback-as_one :
      (c d e : Callback) (m : Message P)
      → orderly m ≡ true
      → as_one c d ≡ some e
      → callback e m ≡ callback d (callback c m)
  unfolding callback
  callback-as_one (on_url a) (on_url b) e m h s = ground (arith, append_assoc m.url a b, s)
  callback-as_one (on_header_field a) (on_header_field b) e m h s =
      let whole : e ≡ on_header_field (a ++ b) = ground (arith, s) in
      ap (λ x. callback x m) whole ∙ field_pieces a b m h
  callback-as_one (on_header_value a) (on_header_value b) e m h s =
      let whole : e ≡ on_header_value (a ++ b) = ground (arith, s) in
      ap (λ x. callback x m) whole ∙ ground (arith, append_assoc m.current_header_value a b)
  callback-as_one (on_body a) (on_body b) e m h s = ground (arith, append_assoc m.body a b, s)
  callback-as_one c d e m h s = ground (arith, s)

  run-join :
      (c : Callback) (cs : List Callback) (m : Message P)
      → orderly m ≡ true
      → run_callbacks (join c cs) m ≡ run_callbacks cs (callback c m)
  unfolding run_callbacks
  run-join c [] m h = refl
  run-join c (d ∷ cs) m h = by_cases (as_one c d) refl
    where
      by_cases :
          (o : Option Callback)
          → as_one c d ≡ o
          → run_callbacks (elim o [ none ↦ c ∷ d ∷ cs | some e ↦ e ∷ cs ]) m
            ≡ run_callbacks cs (callback d (callback c m))
      by_cases none e = refl
      by_cases (some x) e = ap (run_callbacks cs) (callback-as_one c d x m h e)

  pub run-joined :
      (cs : List Callback) (m : Message P)
      → stays_orderly cs m ≡ true
      → run_callbacks (joined cs) m ≡ run_callbacks cs m
  unfolding run_callbacks
  run-joined [] m h = refl
  run-joined (c ∷ cs) m h =
      run-join c (joined cs) m (ground (arith, h))
      ∙ run-joined cs (callback c m) (ground (arith, h))

  pub stays-append :
      (cs ds : List Callback) (m : Message P)
      → stays_orderly (cs ++ ds) m ≡ true
      → stays_orderly cs m ≡ true
  stays-append [] ds m h = refl
  stays-append (c ∷ cs) ds m h = ground (arith, h, stays-append cs ds (callback c m))

  callback-parser :
      (c : Callback) (m : Message P) (p : P)
      → record (callback c m) { parser = p } ≡ callback c (record m { parser = p })
  unfolding callback save_headers
  callback-parser c m p = ground arith

  -- The callbacks do not touch the parser.
  pub run-parser :
      (cs : List Callback) (m : Message P) (p : P)
      → record (run_callbacks cs m) { parser = p } ≡ run_callbacks cs (record m { parser = p })
  unfolding run_callbacks
  run-parser [] m p = refl
  run-parser (c ∷ cs) m p =
      run-parser cs (callback c m) p ∙ ap (run_callbacks cs) (callback-parser c m p)

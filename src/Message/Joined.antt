-- ===== src/Message/Joined.antt =====
-- What the header callbacks of src/common/message.cpp make of a header block in which some values are
-- empty.
use learn_asio.Base.{
  list_laws, ◌≡◌, refl, ap, ◌∙◌, Bool-cases, inl, inr, true, false, [], ◌∷◌, ◌++◌, List, map, arith,
  Bytes, is_empty, concat, All, if◌then◌else◌,
}
use learn_asio.Base.Assoc.{Assoc, insert}
use learn_asio.HttpParser.{on_header_field, on_header_value}
use learn_asio.Message.{Message, save_headers, callback, run_callbacks}
use learn_asio.Message.Headers.{
  HeaderLine, name, value, line_callbacks, block_callbacks, run_callbacks-append, run_line,
  IsSettled, is_empty-append,
}

abbrev pub IsNamed : HeaderLine → Type 0
IsNamed h = is_empty (name h) ≡ false

-- The map after the lines, when the name `front` is pending: a line without a value is not stored,
-- and its name is put in front of the next one.
abbrev pub store_joined : Bytes → List HeaderLine → Assoc → Assoc
store_joined front [] m = m
store_joined front (h ∷ hs) m =
    if is_empty (value h)
    then store_joined (front ++ name h) hs m
    else store_joined [] hs (insert (front ++ name h) (value h) m)

-- The name that is pending after the lines.
abbrev pub left_over : Bytes → List HeaderLine → Bytes
left_over front [] = front
left_over front (h ∷ hs) =
    if is_empty (value h) then left_over (front ++ name h) hs else left_over [] hs

empty_value : (v : Bytes) → is_empty v ≡ true → v ≡ []
empty_value [] h = refl
empty_value (x ∷ v) h = absurd (ground (arith, h))

module _ {P : Type 0} where
  -- The first piece of a name saves what is pending.
  line_after_save :
      (ns vs : List Bytes) (m : Message P)
      → is_empty (concat ns) ≡ false
      → (save_headers m).current_header_value ≡ []
      → run_callbacks (map on_header_field ns ++ map on_header_value vs) m
        ≡ record (save_headers m) {
          current_header_field = (save_headers m).current_header_field ++ concat ns;
          current_header_value = concat vs;
        }
  unfolding run_callbacks callback
  line_after_save [] vs m f s = absurd (ground (arith, f))
  line_after_save (n ∷ ns) vs m f s =
      run_line (record { names = ns; values = vs }) (callback (on_header_field n) m) s
      ∙ simp list_laws

  abbrev joined : Bytes → List HeaderLine → Message P → Message P
  joined front hs m = record m {
    headers = store_joined front hs m.headers;
    current_header_field = left_over front hs;
    current_header_value = [];
  }

  abbrev pended : Bytes → Bytes → Message P → Message P
  pended f v m = record m { current_header_field = f; current_header_value = v }

  abbrev stored : Bytes → Bytes → Message P → Message P
  stored f v m = record m {
    headers = insert f v m.headers;
    current_header_field = [];
    current_header_value = [];
  }

  -- A pending pair without a value stays pending; one with a name and a value is stored.
  save_headers-empty : (f : Bytes) (m : Message P) → save_headers (pended f [] m) ≡ pended f [] m
  unfolding save_headers
  save_headers-empty f m = refl

  save_headers-stored :
      (f v : Bytes) (m : Message P)
      → is_empty f ≡ false
      → is_empty v ≡ false
      → save_headers (pended f v m) ≡ stored f v m
  unfolding save_headers
  save_headers-stored f v m e g = ground (arith, e, g)

  run_joined :
      (front : Bytes) (hs : List HeaderLine) (m : Message P)
      → All IsNamed hs
      → (save_headers m).current_header_field ≡ front
      → (save_headers m).current_header_value ≡ []
      → run_callbacks (block_callbacks hs) m ≡ joined front hs (save_headers m)
  unfolding run_callbacks callback
  run_joined front [] m f e v =
      λ i. record (save_headers m) { current_header_field = e i; current_header_value = v i }
  run_joined front (h ∷ hs) m f e v =
      let s = save_headers m in
      let line =
        line_after_save h.names h.values m f.0 v ∙ ap (λ x. pended (x ++ name h) (value h) s) e in
      run_callbacks-append (line_callbacks h) (block_callbacks hs) m
      ∙ ap (run_callbacks (block_callbacks hs)) line
      ∙ elim (Bool-cases (is_empty (value h))) [
        | inl none_given ↦
            let none_pending : pended (front ++ name h) (value h) s
                ≡ pended (front ++ name h) [] s =
              ap (λ x. pended (front ++ name h) x s) (empty_value (value h) none_given) in
            ap (run_callbacks (block_callbacks hs)) none_pending
            ∙ run_joined (front ++ name h) hs (pended (front ++ name h) [] s) f.1
                (ap (λ x. x.current_header_field) (save_headers-empty (front ++ name h) s))
                (ap (λ x. x.current_header_value) (save_headers-empty (front ++ name h) s))
            ∙ ap (joined (front ++ name h) hs) (save_headers-empty (front ++ name h) s)
            ∙ rw none_given refl
        | inr given ↦
            let saved =
              save_headers-stored (front ++ name h) (value h) s (is_empty-append front (name h) f.0)
                given in
            run_joined [] hs (pended (front ++ name h) (value h) s) f.1
              (ap (λ x. x.current_header_field) saved) (ap (λ x. x.current_header_value) saved)
            ∙ ap (joined [] hs) saved
            ∙ rw given refl
      ]

  -- A header block of which every line has a name, read into a message with no pending header: in
  -- whatever pieces the names and values come, the lines with a value are stored in turn, each under
  -- its name with the names of the lines without a value that stand directly before it in front; the
  -- names of the last such lines stay pending, and nothing else changes.
  pub block_callbacks-joined :
      (hs : List HeaderLine) (m : Message P)
      → All IsNamed hs
      → IsSettled m
      → run_callbacks (block_callbacks hs) m ≡ record m {
        headers = store_joined [] hs m.headers;
        current_header_field = left_over [] hs;
        current_header_value = [];
      }
  unfolding save_headers
  block_callbacks-joined hs m f s =
      let idle : save_headers m ≡ m = ground (arith, s) in
      run_joined [] hs m f (ap (λ x. x.current_header_field) idle ∙ s.0)
        (ap (λ x. x.current_header_value) idle ∙ s.1)
      ∙ ap (joined [] hs) idle

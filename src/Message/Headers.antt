-- ===== src/Message/Headers.antt =====
-- How the header callbacks of src/common/message.cpp build the header map, when the parser hands
-- each name and each value over in any number of pieces.
use learn_asio.Base.{
  list_laws, ◌≡◌, refl, ap, ◌∙◌, false, Option, some, List, [], ◌∷◌, ◌++◌, map, arith, Bytes,
  is_empty, beq, concat, All, if◌then◌else◌,
}
use learn_asio.Base.Assoc.{Assoc, lookup, insert, lookup-insert}
use learn_asio.HttpParser.{Callback, on_header_field, on_header_value, on_headers_complete}
use learn_asio.Message.{Message, save_headers, callback, run_callbacks}

-- One header line as the parser reports it: the pieces of its name, then those of its value.
pub record HeaderLine : Type 0 where
  pub names : List Bytes
  pub values : List Bytes

abbrev pub name : HeaderLine → Bytes
name h = concat h.names

abbrev pub value : HeaderLine → Bytes
value h = concat h.values

abbrev pub line_callbacks : HeaderLine → List Callback
line_callbacks h = map on_header_field h.names ++ map on_header_value h.values

abbrev pub block_callbacks : List HeaderLine → List Callback
block_callbacks [] = on_headers_complete ∷ []
block_callbacks (h ∷ hs) = line_callbacks h ++ block_callbacks hs

-- A line whose name and value are both not empty.
abbrev pub IsFull : HeaderLine → Type 0
IsFull h = (is_empty (name h) ≡ false) × (is_empty (value h) ≡ false)

-- The map with every line stored in turn.
abbrev pub store_all : List HeaderLine → Assoc → Assoc
store_all [] m = m
store_all (h ∷ hs) m = store_all hs (insert (name h) (value h) m)

module _ {P : Type 0} where
  pub run_callbacks-append :
      (cs ds : List Callback) (m : Message P)
      → run_callbacks (cs ++ ds) m ≡ run_callbacks ds (run_callbacks cs m)
  unfolding run_callbacks
  run_callbacks-append [] ds m = refl
  run_callbacks-append (c ∷ cs) ds m = run_callbacks-append cs ds (callback c m)

  abbrev pub IsSettled : Message P → Type 0
  IsSettled m = (m.current_header_field ≡ []) × (m.current_header_value ≡ [])

  run_values :
      (vs : List Bytes) (m : Message P)
      → run_callbacks (map on_header_value vs) m
        ≡ record m { current_header_value = m.current_header_value ++ concat vs }
  unfolding run_callbacks callback
  run_values [] m = simp list_laws
  run_values (v ∷ vs) m = run_values vs (callback (on_header_value v) m) ∙ simp list_laws

  -- With no value pending, a piece of a name is appended.
  callback_name :
      (n : Bytes) (m : Message P)
      → m.current_header_value ≡ []
      → callback (on_header_field n) m
        ≡ record m { current_header_field = m.current_header_field ++ n }
  unfolding callback
  callback_name n m e = ground arith

  run_names :
      (ns : List Bytes) (m : Message P)
      → m.current_header_value ≡ []
      → run_callbacks (map on_header_field ns) m
        ≡ record m { current_header_field = m.current_header_field ++ concat ns }
  unfolding run_callbacks
  run_names [] m e = simp list_laws
  run_names (n ∷ ns) m e =
      ap (run_callbacks (map on_header_field ns)) (callback_name n m e)
      ∙ run_names ns (record m { current_header_field = m.current_header_field ++ n }) e
      ∙ simp list_laws

  -- One full line, from a settled message: its name and its value are pending.
  pub run_line :
      (h : HeaderLine) (m : Message P)
      → m.current_header_value ≡ []
      → run_callbacks (line_callbacks h) m ≡ record m {
        current_header_field = m.current_header_field ++ name h;
        current_header_value = value h;
      }
  run_line h m e =
      run_callbacks-append (map on_header_field h.names) (map on_header_value h.values) m
      ∙ rw (run_names h.names m e) (
          run_values h.values (record m { current_header_field = m.current_header_field ++ name h })
          ∙ ground (arith, e))

  -- The first piece of a name stores the pending pair; the rest joins on.
  run_line_saves :
      (ns vs : List Bytes) (m : Message P)
      → is_empty (concat ns) ≡ false
      → IsSettled (save_headers m)
      → run_callbacks (map on_header_field ns ++ map on_header_value vs) m
        ≡ record (save_headers m) {
          current_header_field = concat ns;
          current_header_value = concat vs;
        }
  unfolding run_callbacks callback
  run_line_saves [] vs m f s = cc
  run_line_saves (n ∷ ns) vs m f s =
      run_line (record { names = ns; values = vs }) (callback (on_header_field n) m) s.1
      ∙ ground (arith, s)

  -- A full pending pair is stored, and the message is settled after that.
  save_headers_full :
      (h : HeaderLine) (m : Message P)
      → IsFull h
      → m.current_header_field ≡ name h
      → m.current_header_value ≡ value h
      → save_headers m ≡ record m {
        headers = insert (name h) (value h) m.headers;
        current_header_field = [];
        current_header_value = [];
      }
  unfolding save_headers
  save_headers_full h m f en ev = ground arith

  -- The pending pair is stored, and `h` is pending in its place.
  abbrev pend : HeaderLine → Message P → Message P
  pend h m = record (save_headers m) {
    current_header_field = name h;
    current_header_value = value h;
  }

  abbrev absorb : List HeaderLine → Message P → Message P
  absorb hs m = record m { headers = store_all hs m.headers }

  run_block :
      (hs : List HeaderLine) (m : Message P)
      → All IsFull hs
      → IsSettled (save_headers m)
      → run_callbacks (block_callbacks hs) m ≡ absorb hs (save_headers m)
  unfolding run_callbacks callback
  run_block [] m f s = refl
  run_block (h ∷ hs) m f s =
      let saved = save_headers_full h (pend h m) f.0 refl refl in
      run_callbacks-append (line_callbacks h) (block_callbacks hs) m
      ∙ ap (run_callbacks (block_callbacks hs)) (run_line_saves h.names h.values m f.0.0 s)
      ∙ run_block hs (pend h m) f.1
          (ap (λ x. x.current_header_field) saved, ap (λ x. x.current_header_value) saved)
      ∙ ap (absorb hs) saved
      ∙ ground (arith, s)

  run_block_stores :
      (hs : List HeaderLine) (m : Message P)
      → All IsFull hs
      → IsSettled m
      → run_callbacks (block_callbacks hs) m ≡ absorb hs m
  unfolding save_headers
  run_block_stores hs m f s =
      let idle : save_headers m ≡ m = ground (arith, s) in
      run_block hs m f (rw idle s) ∙ ap (absorb hs) idle

-- The value of the last line with the name `k`.
abbrev pub last_value : Bytes → List HeaderLine → Option Bytes → Option Bytes
last_value k [] old = old
last_value k (h ∷ hs) old = last_value k hs (if beq (name h) k then some (value h) else old)

lookup-store_all :
    (k : Bytes) (hs : List HeaderLine) (m : Assoc)
    → lookup k (store_all hs m) ≡ last_value k hs (lookup k m)
lookup-store_all k [] m = refl
lookup-store_all k (h ∷ hs) m =
    lookup-store_all k hs (insert (name h) (value h) m)
    ∙ ap (last_value k hs) (lookup-insert (name h) k (value h) m)

pub is_empty-append : (a b : Bytes) → is_empty b ≡ false → is_empty (a ++ b) ≡ false
is_empty-append [] b h = h
is_empty-append (x ∷ a) b h = refl

module _ {P : Type 0} where
  -- A name is pending, and no value.
  abbrev named : Bytes → Message P → Message P
  named n m = record m { current_header_field = n; current_header_value = [] }

  -- A header block in which every line has a name and a value, read into a message with no pending
  -- header: whatever the pieces in which the parser hands the names and values over, each name is
  -- bound to the value of its last line, or as before if no line has it, and nothing but the
  -- headers changes.
  pub block_callbacks-lookup :
      (hs : List HeaderLine) (m : Message P) (k : Bytes)
      → All IsFull hs
      → IsSettled m
      → let m' = run_callbacks (block_callbacks hs) m in
        (lookup k m'.headers ≡ last_value k hs (lookup k m.headers))
        × (m' ≡ record m { headers = m'.headers })
  block_callbacks-lookup hs m k f s =
      let stored = run_block_stores hs m f s in
      (rw stored (lookup-store_all k hs m.headers), rw stored)

  -- The line that a message with no pending header makes of a line `h` with an empty value and the
  -- full line `g` after it: the value of `g` is stored under the two names run together.
  empty_value_joins :
      (h g : HeaderLine) (m : Message P)
      → value h ≡ []
      → IsFull g
      → IsSettled m
      → run_callbacks (block_callbacks (h ∷ g ∷ [])) m
        ≡ record m { headers = insert (name h ++ name g) (value g) m.headers }
  unfolding run_callbacks callback
  empty_value_joins h g m e f s =
      let first : run_callbacks (line_callbacks h) m ≡ named (name h) m =
        run_line h m s.1 ∙ ground (arith, s, e) in
      run_callbacks-append (line_callbacks h) (line_callbacks g ++ on_headers_complete ∷ []) m
      ∙ ap (run_callbacks (line_callbacks g ++ on_headers_complete ∷ [])) first
      ∙ run_callbacks-append (line_callbacks g) (on_headers_complete ∷ []) (named (name h) m)
      ∙ ap save_headers (run_line g (named (name h) m) refl)
      ∙ ground (arith, s, is_empty-append (name h) (name g))

-- ===== src/Tests/Listing.antt =====
-- A table of four rows that is read in two batches.
use toolhive_registry_server.Prelude.{
  ℕ, ◌<◌, ◌≤◌, length, String, Bool, true, false, Option, none, some, List, [], ◌∷◌, ◌≡◌, refl,
  Memᴰ, Outcome, ok, arith,
}
use toolhive_registry_server.Claims.Stored.{RecordFilter}
use toolhive_registry_server.Listing.{Page, Cursor, advance, stream, apply_filter}
use toolhive_registry_server.Listing.Dedup.{Rows}
use toolhive_registry_server.Listing.Pages.{Shown, stream-Shown, stream-one_source}

record Server : Type 0 where
  pub name : String
  pub version : String
  pub position : ℕ
  pub public : Bool

abbrev weather : ℕ → String → Server
weather position version = record {
  name = "weather";
  version = version;
  position = position;
  public = true;
}

abbrev hidden : Server
hidden = record { name = "maps"; version = "1.0.0"; position = 0; public = false }

abbrev extract : Server → Option (String × ℕ)
extract s = some (s.name, s.position)

abbrev filter : Option (RecordFilter Server)
filter = some (λ s. ok s.public)

abbrev cursor_of : Server → Cursor
cursor_of s = (s.name, s.version)

-- Three rows at first, and one behind any cursor.
abbrev query : Option Cursor → Outcome String (List Server)
query none = ok (hidden ∷ weather 0 "1.0.0" ∷ weather 1 "1.1.0" ∷ [])
query (some _) = ok (weather 0 "1.2.0" ∷ [])

filter_answers : (s : Server) → apply_filter extract filter s ≡ ok s.public
unfolding apply_filter
filter_answers s = refl

abbrev rows : Rows extract filter
rows = record {
  name = λ s. s.name;
  pos = λ s. s.position;
  shown = λ s. s.public;
  extracts = λ s. refl;
  answers = filter_answers;
}

abbrev left : Option Cursor → ℕ
left none = 1
left (some _) = 0

answers : (cursor : Option Cursor) → (batch : List Server) × (query cursor ≡ ok batch)
answers none = (_, refl)
answers (some _) = (_, refl)

shrinks :
    (cursor : Option Cursor) (batch : List Server)
    → query cursor ≡ ok batch
    → 2 < length batch
    → left (advance cursor_of cursor batch) < left cursor
shrinks none batch h full =
    let same : batch ≡ hidden ∷ weather 0 "1.0.0" ∷ weather 1 "1.1.0" ∷ [] = cc in
    rw same (omega arith)
shrinks (some _) batch h full =
    let same : batch ≡ weather 0 "1.2.0" ∷ [] = cc in
    absurd (let k : 2 < 1 = rw same at full in omega (arith, k))

stream-Shown_example :
    (page : Page Server) × (stream extract filter cursor_of query 2 3 none ≡ some (ok page))
    × Shown extract filter cursor_of query 2 rows none page
stream-Shown_example =
    stream-Shown extract filter cursor_of query 2 rows left answers shrinks 3 none (omega arith)
      (omega arith)

stream-one_source_example :
    (page : Page Server) × (stream extract filter cursor_of query 2 3 none ≡ some (ok page))
    × (length page.rows ≤ 2)
    × ((r : Server) → Memᴰ r page.rows → r.public ≡ true)
    × ((r r' : Server)
        → Memᴰ r page.rows
        → Memᴰ r' page.rows
        → r.name ≡ r'.name
        → r.position ≡ r'.position)
stream-one_source_example =
    stream-one_source extract filter cursor_of query 2 rows left answers shrinks 3 none
      (omega arith) (omega arith)

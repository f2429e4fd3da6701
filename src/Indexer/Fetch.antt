-- ===== src/Indexer/Fetch.antt =====
-- fetchEvents of indexer/services/indexer.service.ts: the pages of one request. `page` is what the RPC
-- server answers to a cursor, none where the call fails; a next cursor is a text that is not empty.
use stellar_insured_backend.Prelude.{
  List, Option, [], false, leb, length, none, some, suc, true, zero, ℕ, ◌*◌, ◌++◌, ◌≡◌,
}
use stellar_insured_backend.Indexer.{Event}

pub data Fetched : Type 0 where
  out_of_fuel failed : Fetched
  fetched : List Event → Fetched

abbrev pub Pages : Type 0
Pages = Option ℕ → Option (List Event × Option ℕ)

-- The `do` loop, on fuel.
unfoldable pub fetch_from : Pages → ℕ → ℕ → Option ℕ → List Event → Fetched
fetch_from page max_events zero cursor events = out_of_fuel
fetch_from page max_events (suc n) cursor events = elim (page cursor) [
  | none ↦ failed
  | some (response, next) ↦ elim (leb (max_events * 5) (length (events ++ response))) [
    | true ↦ fetched (events ++ response)
    | false ↦ elim next [
      | none ↦ fetched (events ++ response)
      | some c ↦ fetch_from page max_events n (some c) (events ++ response)
    ]
  ]
]

-- A fetch that makes at most `calls` calls.
unfoldable pub fetch_events : ℕ → Pages → ℕ → Fetched
unfolding fetch_from
fetch_events calls page max_events = fetch_from page max_events calls none []

-- From here the server answers every cursor that the fetch reaches with no event and another cursor.
abbrev pub StaysEmpty : Pages → Type 0
StaysEmpty page = (c : ℕ) → (d : ℕ) × (page (some c) ≡ some ([], some d))

-- From a cursor on, `n` pages name a next one and the page after them does not; these are all their
-- events.
abbrev pub Ends : Pages → ℕ → Option ℕ → List Event → Type 0
Ends page zero k events = page k ≡ some (events, none)
Ends page (suc n) k events =
    (first : List Event) × (c : ℕ) × (rest : List Event) × (page k ≡ some (first, some c))
    × Ends page n (some c) rest
    × (events ≡ first ++ rest)

-- ===== src/EventHandlers.antt =====
-- The handlers of contract events: indexer/services/event-handler.service.ts. An amount text is a
-- decimal number or no number; the sums of the trust score are over funds that are not negative. The
-- dispatch of a prepared notification has no effect on the rows, and its failure is caught.
pub mod Store
pub mod Dispatch
pub mod Frame
pub mod Unique
pub mod Outcomes
pub mod Positional
use mathlib.Core.Option
use Prim.Native.String.{String}
use stellar_insured_backend.Prelude.{
  Bool, List, Option, [], false, if◌then◌else◌, none, some, suc, true, ℕ, ◌&&◌, ◌*◌, ◌-◌, ◌==◌, ◌^◌,
  ◌||◌, ◌∷◌,
}
use stellar_insured_backend.Prelude.Int.{leb_ℤ, ltb_ℤ, neg, negsuc, pos, ℤ}
use stellar_insured_backend.Database.{Tx, err, failure, ok, record_not_found}
use stellar_insured_backend.Service.{Io, pure, ◌>>◌}
use stellar_insured_backend.Model.{Db, NotificationType, User}
use stellar_insured_backend.Reputation.{Delta, adjust_reputation, points, trust_score}
use stellar_insured_backend.Notification.{prepare_notification}
use stellar_insured_backend.XdrDecoder.{
  Text, Value, bigint, codes, is_digit, is_space, negated, number, read_digits, skip_spaces, string,
  undefined,
}
use stellar_insured_backend.XdrDecoder.Members.{Record}
use stellar_insured_backend.EventHandlers.Store.{
  Contribution, HandlerClient, Milestone, Project, World,
}
use stellar_insured_backend.XdrDecoder.Decode.{read}

abbrev pub at : Record → String → Value
at r k = read r (codes k)

abbrev pub is_defined : Value → Bool
is_defined undefined = false
is_defined v = true

-- `BigInt(text)` with spaces round it taken off, or none where it throws.
abbrev pub all_digits : Text → Bool
all_digits [] = true
all_digits (c ∷ s) = is_digit c && all_digits s

abbrev pub only_spaces : Text → Bool
only_spaces [] = true
only_spaces (c ∷ s) = is_space c && only_spaces s

abbrev pub trim_end : Text → Text
trim_end [] = []
trim_end (c ∷ s) = if only_spaces (c ∷ s) then [] else c ∷ trim_end s

abbrev pub big_digits : Text → Option ℕ
big_digits [] = none
big_digits (c ∷ s) = if all_digits (c ∷ s) then some (read_digits 0 (c ∷ s)) else none

abbrev pub big_signed : Text → Option ℤ
big_signed [] = some (pos 0)
big_signed (c ∷ s) =
    if c == b'-'
    then Option.map negated (big_digits s)
    else Option.map pos (if c == b'+' then big_digits s else big_digits (c ∷ s))

unfoldable pub big_int : Value → Option ℤ
unfolding read_digits
big_int (string s) = big_signed (trim_end (skip_spaces s))
big_int (number z) = some z
big_int (bigint z) = some z
big_int _ = none

-- What a BigInt column takes; the client throws on any other number.
unfoldable pub in_int8 : ℤ → Bool
in_int8 z = leb_ℤ (neg (2 ^ 63)) z && ltb_ℤ z (pos (2 ^ 63))

-- `data.deadline * 1000`.
abbrev pub milliseconds : Value → ℤ
milliseconds (number (pos n)) = pos (n * 1000)
milliseconds (number (negsuc n)) = negsuc (suc n * 1000 - 1)
milliseconds _ = pos 0

-- `try { await m } catch { log }`.
abbrev pub attempt : {S A : Type 0} → Io S A → Io S (Unit {0})
attempt m s = let (r, s') = m s in (ok tt, s')

abbrev pub or_error : {S A : Type 0} → Option A → Io S A
or_error none s = (err failure, s)
or_error (some a) s = (ok a, s)

module _ (h : HandlerClient) where
  abbrev pub on_db : {A : Type 0} → Tx (Db h.c) A → Io (World h) A
  on_db m w = elim (m w.db) [ ok (a, s) ↦ (ok a, record w { db = s }) | err e ↦ (err e, w) ]

  abbrev pub new_user : ℕ → User
  new_user wallet = record {
    wallet_address = wallet;
    reputation_score = pos 0;
    trust_score = pos 500;
    email = none;
    push_subscription = none;
    settings = none;
  }

  -- With an empty update payload.
  unfoldable pub upsert_by_wallet : ℕ → Io (World h) ℕ
  upsert_by_wallet wallet w =
      let (row, users) = h.users_by_wallet.upsert w.db.users wallet (new_user wallet) (λ u. u) in
      let s : Db h.c = record (w.db) { users = users } in (ok row.0, record w { db = s })

  unfoldable pub find_by_contract_id : ℕ → Io (World h) (Option (ℕ × Project))
  find_by_contract_id contract w = (ok (h.projects_by_contract.by_key w.projects contract), w)

  unfoldable pub upsert_by_contract_id : ℕ → Project → (Project → Project) → Io (World h) ℕ
  upsert_by_contract_id contract new f w =
      let (row, projects) = h.projects_by_contract.upsert w.projects contract new f in
      if in_int8 new.goal then (ok row.0, record w { projects = projects }) else (err failure, w)

  unfoldable pub update_many_by_contract_id : ℕ → (Project → Project) → Io (World h) (Unit {0})
  update_many_by_contract_id contract f w = (
    ok tt,
    record w { projects = h.projects.update_many w.projects (λ p. p.contract_id == contract) f },
  )

  -- `update(id, { currentFunds })`
  unfoldable pub update_project : ℕ → ℤ → Io (World h) (Unit {0})
  update_project id funds w =
      if in_int8 funds
      then elim (h.projects.table.find w.projects id) [
        | none ↦ (err record_not_found, w)
        | some p ↦ (
          ok tt,
          record w {
            projects = h.projects.table.save w.projects id (record p { current_funds = funds });
          },
        )
      ]
      else (err failure, w)

  -- With an empty update payload.
  unfoldable pub upsert_by_tx_hash : Contribution → Io (World h) (Unit {0})
  upsert_by_tx_hash row w =
      let (stored, contributions) =
        h.contributions_by_hash.upsert w.contributions row.transaction_hash row (λ x. x) in
      if in_int8 row.amount
      then (ok tt, record w { contributions = contributions })
      else (err failure, w)

  -- One id for each investor.
  abbrev investors : h.Contributions → List ℕ → List ℕ
  investors t [] = []
  investors t (k ∷ ks) = elim (h.contributions.table.find t k) [
    | none ↦ investors t ks
    | some x ↦ x.investor_id ∷ investors t ks
  ]

  abbrev contains : ℕ → List ℕ → Bool
  contains x [] = false
  contains x (y ∷ ys) = x == y || contains x ys

  abbrev distinct : List ℕ → List ℕ
  distinct [] = []
  distinct (x ∷ xs) = if contains x xs then distinct xs else x ∷ distinct xs

  unfoldable pub find_distinct_investors : ℕ → World h → List ℕ
  find_distinct_investors project w = distinct (
      investors w.contributions
        (h.contributions.find_many w.contributions (λ x. x.project_id == project)))

  unfoldable pub update_many_by_project : ℕ → (Milestone → Milestone) → Io (World h) (Unit {0})
  update_many_by_project project f w = (
    ok tt,
    record w {
      milestones = h.milestones.update_many w.milestones (λ x. x.project_id == project) f;
    },
  )

  unfoldable pub notify : ℕ → NotificationType → ℕ → Io (World h) (Unit {0})
  unfolding prepare_notification
  notify user type entity = on_db (prepare_notification h.c user type entity) >> pure tt

  unfoldable pub adjust : ℕ → Delta → Io (World h) ℤ
  unfolding adjust_reputation
  adjust user delta = on_db (adjust_reputation h.c user (points delta))

-- ===== src/Tests/Nonces.antt =====
-- A cache that is a function from keys, with the end of each lifetime: nonce/nonce.service.ts.
use stellar_insured_backend.Prelude.{
  Bool-cases, Option, false, if◌then◌else◌, inl, inr, ltb, none, refl, some, true, ℕ, ◌+◌, ◌&&◌,
  ◌||◌, ◌≡◌,
}
use stellar_insured_backend.Database.{bad_request, err, ok}
use stellar_insured_backend.Resilience.{attempt_from, fulfilled}
use stellar_insured_backend.XdrDecoder.{Text, codes, int_text, text_eq}
use stellar_insured_backend.Nonce.{Cache, Guard, consume_nonce, create_nonce, nonce_ttl_ms}
use stellar_insured_backend.Nonce.Cached.{Answers, IsClosed, forgotten}
use stellar_insured_backend.Nonce.Once.{consume_once, create-consume}
use stellar_insured_backend.Nonce.Alias.{prefix_unbinds}

abbrev Kept : Type 0
Kept = Text → Option (Text × ℕ)

abbrev before_end : ℕ → Option (Text × ℕ) → Option Text
before_end now none = none
before_end now (some (v, end)) = if ltb now end then some v else none

abbrev kept : Cache Kept
kept = record {
  get = λ now k w. (fulfilled (before_end now (w k)), w);
  set = λ now k v ttl w. (fulfilled tt, λ j. if text_eq k j then some (v, now + ttl) else w j);
  del = λ k w. (fulfilled tt, λ j. if text_eq k j then none else w j);
}

abbrev kept_answers : Answers kept
kept_answers = record {
  peek = λ w now k. before_end now (w k);
  stored = λ now k v ttl w j. if text_eq k j then some (v, now + ttl) else w j;
  removed = λ k w j. if text_eq k j then none else w j;
  get_lem = λ now k w. refl;
  set_lem = λ now k v ttl w. refl;
  del_lem = λ k w. refl;
  peek-stored = λ now k v ttl w at j. elim (Bool-cases (text_eq k j)) [
    | inl e ↦ rw e refl
    | inr e ↦ rw e refl
  ];
  peek-removed =
      λ k w at j. elim (Bool-cases (text_eq k j)) [ inl e ↦ rw e refl | inr e ↦ rw e refl ];
}

abbrev pass_on : Guard Kept
pass_on A task = task

pass_on-IsClosed : IsClosed pass_on
pass_on-IsClosed A task w v a h = h

abbrev no_pause : ℕ → ℕ → ℕ → Kept → Kept
no_pause error attempt delay w = w

abbrev draw : ℕ → ℕ
draw attempt = 0

abbrev empty_cache : Kept
empty_cache k = none

abbrev with_nonce : Kept
with_nonce = (create_nonce kept pass_on no_pause draw 100 (codes "ab") (codes "u1") empty_cache).1

create-consume_example :
    consume_nonce kept pass_on no_pause draw 200 (codes "ab") (codes "u2") with_nonce ≡ (
      if ltb 200 (100 + nonce_ttl_ms) && (false || text_eq (codes "u1") (codes "u2"))
      then (
        ok true,
        forgotten kept pass_on no_pause draw kept_answers pass_on-IsClosed (codes "ab") with_nonce,
      )
      else (err bad_request, with_nonce))
create-consume_example =
    create-consume kept pass_on no_pause draw kept_answers pass_on-IsClosed 100 200 (codes "ab")
      (codes "u1") (codes "u2") empty_cache refl refl

abbrev consumed : Kept
consumed = (consume_nonce kept pass_on no_pause draw 200 (codes "ab") (codes "u1") with_nonce).1

consume_once_example :
    consume_nonce kept pass_on no_pause draw 300 (codes "ab") (codes "u2") consumed
    ≡ (err bad_request, consumed)
unfolding create_nonce consume_nonce attempt_from int_text
consume_once_example =
    consume_once kept pass_on no_pause draw kept_answers pass_on-IsClosed 200 300 (codes "ab")
      (codes "u1") (codes "u2") with_nonce consumed refl

prefix_unbinds_example :
    let first =
      consume_nonce kept pass_on no_pause draw 200 (codes "user:ab") (codes "u2") with_nonce in
    (first.0 ≡ ok true)
    × ((consume_nonce kept pass_on no_pause draw 200 (codes "ab") (codes "u2") first.1).0 ≡ ok true)
prefix_unbinds_example =
    prefix_unbinds kept pass_on no_pause draw kept_answers pass_on-IsClosed 100 200 (codes "ab")
      (codes "u1") (codes "u2") empty_cache refl refl refl refl

-- ===== src/SoftDelete.antt =====
-- The soft-delete middleware of the client: prisma.soft-delete.middleware.ts. A query on rows of type
-- R is a value of Params; the conditions on columns other than the id and deletedAt are one test of
-- the row, and a date is a number. `where` and `data` are called filter and payload here.
pub mod Archive
pub mod Engine
pub mod Calls
pub mod Refinement
pub mod Requests
pub mod Purge
pub mod Reads
pub mod Service
pub mod Store
use mathlib.Core.Option
use stellar_insured_backend.Prelude.{
  Bool, Option, false, if◌then◌else◌, is_some, none, not, some, true, ℕ, ◌&&◌, ◌||◌,
}

-- The models of the list SOFT_DELETE_MODELS, and any other one.
pub data ModelName : Type 0 where
  user project contribution milestone reputation_history category : ModelName
  insurance_pool reinsurance_contract insurance_policy claim audit_log : ModelName
  ledger_cursor processed_event quarantined_event indexer_log : ModelName
  notification_setting notification email_outbox idempotency_key refresh_token : ModelName
  unlisted : ℕ → ModelName

abbrev pub is_soft_delete_model : ModelName → Bool
is_soft_delete_model (unlisted _) = false
is_soft_delete_model _ = true

pub data Action : Type 0 where
  find_unique find_unique_or_throw find_first find_first_or_throw : Action
  find_many count aggregate group_by : Action
  update update_many delete delete_many upsert create create_many : Action

abbrev pub is_read : Action → Bool
is_read find_unique = true
is_read find_unique_or_throw = true
is_read find_first = true
is_read find_first_or_throw = true
is_read find_many = true
is_read count = true
is_read aggregate = true
is_read group_by = true
is_read _ = false

abbrev pub is_update : Action → Bool
is_update update = true
is_update update_many = true
is_update _ = false

abbrev pub is_delete : Action → Bool
is_delete delete = true
is_delete delete_many = true
is_delete _ = false

abbrev pub is_upsert : Action → Bool
is_upsert upsert = true
is_upsert _ = false

-- `null`, `{ not: null }`, and `{ not: null, lt: date }`.
pub data DateFilter : Type 0 where
  is_null not_null : DateFilter
  not_null_before : ℕ → DateFilter

pub record Where (R : Type 0) : Type 0 where
  pub id : Option ℕ
  pub fields : R → Bool
  pub deleted_at : Option DateFilter
  pub include_deleted : Option Bool
  pub hard_delete : Option Bool

-- What is written to a row, and to its deletedAt: nothing, null or a date.
pub record Payload (A : Type 0) : Type 0 where
  pub body : A
  pub deleted_at : Option (Option ℕ)

pub record Args (R : Type 0) : Type 0 where
  pub filter : Option (Where R)
  pub include_deleted : Option Bool
  pub hard_delete : Option Bool
  pub payload : Option (Payload (R → R))
  pub create : Option (Payload R)
  pub update : Option (Payload (R → R))

pub record Params (R : Type 0) : Type 0 where
  pub model : ModelName
  pub action : Action
  pub args : Option (Args R)

-- `flag === true`.
abbrev pub is_set : Option Bool → Bool
is_set (some true) = true
is_set _ = false

-- `'deletedAt' in payload` fails: the payload gets `deletedAt: null`.
abbrev pub start_live : {A : Type 0} → Payload A → Payload A
start_live d = elim d.deleted_at [ none ↦ record d { deleted_at = some none } | some t ↦ d ]

module _ {R : Type 0} where
  abbrev pub no_where : Where R
  no_where = record {
    id = none;
    fields = λ r. true;
    deleted_at = none;
    include_deleted = none;
    hard_delete = none;
  }

  abbrev pub no_args : Args R
  no_args = record {
    filter = none;
    include_deleted = none;
    hard_delete = none;
    payload = none;
    create = none;
    update = none;
  }

  abbrev pub get_middleware_args : Params R → Args R
  get_middleware_args p = elim p.args [ none ↦ no_args | some args ↦ args ]

  -- `{ ...where, deletedAt: null }`.
  abbrev pub with_live : Option (Where R) → Where R
  with_live none = record no_where { deleted_at = some is_null }
  with_live (some w) = record w { deleted_at = some is_null }

  abbrev pub where_flag : (Where R → Option Bool) → Option (Where R) → Bool
  where_flag flag none = false
  where_flag flag (some w) = is_set (flag w)

  unfoldable pub should_include_deleted : Args R → Bool
  should_include_deleted args =
      where_flag (λ w. w.include_deleted) args.filter || is_set args.include_deleted

  unfoldable pub should_hard_delete : Args R → Bool
  should_hard_delete args = where_flag (λ w. w.hard_delete) args.filter || is_set args.hard_delete

  unfoldable pub remove_hard_delete_flags : Args R → Args R
  remove_hard_delete_flags args = record args {
    filter = Option.map (λ (w : Where R). record w { hard_delete = none }) args.filter;
    hard_delete = none;
  }

  unfoldable pub remove_include_deleted_flags : Args R → Args R
  remove_include_deleted_flags args = record args {
    filter = Option.map (λ (w : Where R). record w { include_deleted = none }) args.filter;
    include_deleted = none;
  }

  unfoldable pub read_args : Bool → Args R → Args R
  unfolding should_include_deleted remove_include_deleted_flags
  read_args exclude_deleted args = remove_include_deleted_flags (
      if exclude_deleted && not (should_include_deleted args)
      then record args { filter = some (with_live args.filter) }
      else args)

  -- `args.data?.deletedAt === null`.
  abbrev pub is_restore : Option (Payload (R → R)) → Bool
  is_restore none = false
  is_restore (some d) = elim d.deleted_at [ none ↦ false | some t ↦ not (is_some t) ]

  unfoldable pub update_args : Bool → Args R → Args R
  update_args exclude_deleted args =
      if exclude_deleted && not (is_restore args.payload)
      then record args { filter = some (with_live args.filter) }
      else args

  unfoldable pub delete_params : ℕ → Params R → Args R → Params R
  unfolding should_hard_delete remove_hard_delete_flags
  delete_params now p args =
      if should_hard_delete args
      then record p { args = some (remove_hard_delete_flags args) }
      else record p {
        action = elim p.action [ delete ↦ Action.update | _ ↦ update_many ];
        args = some (record no_args {
          filter = some (with_live (remove_hard_delete_flags args).filter);
          payload = some (record { body = λ r. r; deleted_at = some (some now) });
        });
      }

  unfoldable pub upsert_args : Args R → Args R
  upsert_args args = record args {
    create = Option.map start_live args.create;
    update = Option.map start_live args.update;
  }

  -- The parameters that the middleware hands to `next`, at the time `now`.
  unfoldable pub create_soft_delete_middleware : Bool → ℕ → Params R → Params R
  unfolding read_args update_args delete_params upsert_args
  create_soft_delete_middleware exclude_deleted now p =
      let args = get_middleware_args p in
      if not (is_soft_delete_model p.model)
      then record p { args = some args }
      else if is_read p.action
      then record p { args = some (read_args exclude_deleted args) }
      else if is_update p.action
      then record p { args = some (update_args exclude_deleted args) }
      else if is_delete p.action
      then delete_params now p args
      else if is_upsert p.action
      then record p { args = some (upsert_args args) }
      else record p { args = some args }

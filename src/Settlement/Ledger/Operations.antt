-- ===== src/Settlement/Ledger/Operations.antt =====
-- The operations that write the ledger, and the replay of the file on startup.
use mlx_mesh.Base.{
  ℕ, Bool, true, false, ◌&&◌, Option, none, some, [], ◌∷◌, ◌++◌, map, String, str_eq, any,
  if◌then◌else◌,
}
use mlx_mesh.Base.Int.{ℤ, ◌+ℤ◌, ◌-ℤ◌, ltb_ℤ}
use mlx_mesh.Settlement.Types.{
  CreditOrigin, startup_grant, earned_contrib, admin_adjustment, other, CreditEntry, LedgerDebit,
  AdminAction, CreditRow, DebitRow, ActionRow, Tables, Ledger, TimeText,
}
use mlx_mesh.Settlement.Ledger.Totals.{totals_of}

-- The errors that the source wraps.
pub data Error : Type 0 where
  persist_credit_entry persist_admin_action : Error

unfoldable pub new_ledger : Ledger
new_ledger = record { entries = []; debits = []; admin_actions = []; db = none; on_credit = false }

unfoldable pub set_on_credit : Ledger → Ledger
set_on_credit l = record l { on_credit = true }

-- The entry that the callback is called with, if there is one.
unfoldable pub notify_credit : Ledger → CreditEntry → Option CreditEntry
notify_credit l e = if l.on_credit then some e else none

pub is_startup_grant : CreditOrigin → Bool
is_startup_grant startup_grant = true
is_startup_grant earned_contrib = false
is_startup_grant admin_adjustment = false
is_startup_grant (other _) = false

unfoldable pub holds_grant : String → CreditEntry → Bool
unfolding is_startup_grant
holds_grant u e = str_eq e.user_id u && is_startup_grant e.origin

module _ (tx : TimeText) where
  open tx use {format, parse}

  unfoldable pub credit_row : CreditEntry → CreditRow
  credit_row e = record {
    user_id = e.user_id;
    origin = e.origin;
    amount = e.amount;
    granted_or_earned_at = format e.granted_or_earned_at;
    source_reference = e.source_reference;
  }

  unfoldable pub debit_row : LedgerDebit → DebitRow
  debit_row d = record {
    user_id = d.user_id;
    amount = d.amount;
    job_id = d.job_id;
    written_at = format d.written_at;
  }

  unfoldable pub action_row : AdminAction → ActionRow
  action_row a = record {
    action = a.action;
    detail = a.detail;
    amount = a.amount;
    performed_at = format a.performed_at;
  }

  -- `creditLocked`
  unfoldable pub credit_locked : Bool → Ledger → CreditEntry → Ledger × Option Error
  credit_locked exec l entry = elim l.db [
    | none ↦ (record l { entries = l.entries ++ entry ∷ [] }, none)
    | some t ↦
        if exec
        then (
          record l {
            entries = l.entries ++ entry ∷ [];
            db = some (record t { credit_entries = t.credit_entries ++ credit_row entry ∷ [] });
          },
          none,
        )
        else (l, some persist_credit_entry)
  ]

  -- `CreditAccount`: the ledger, the error, and what the callback was called with.
  unfoldable pub credit_account :
      Bool → Ledger → CreditEntry → Ledger × Option Error × Option CreditEntry
  credit_account exec l entry =
      let (l', err) = credit_locked exec l entry in
      (l', err, elim err [ none ↦ notify_credit l' entry | some _ ↦ none ])

  -- `ClaimStartupGrantOnce`: the ledger, `claimed`, the error, and what the callback was called with.
  unfoldable pub claim_startup_grant_once :
      Bool → Ledger → CreditEntry → Ledger × Bool × Option Error × Option CreditEntry
  claim_startup_grant_once exec l entry =
      if any (holds_grant entry.user_id) l.entries
      then (l, false, none, none)
      else (let (l', err) = credit_locked exec l entry in
          elim err [
            | none ↦ (l', true, none, notify_credit l' entry)
            | some e ↦ (l', false, some e, none)
          ])

  -- `DebitAccount`: false and no change on a balance below the amount, and on a failed write.
  unfoldable pub debit_account : Bool → ℕ → Ledger → String → ℤ → String → Ledger × Bool
  debit_account exec now l user amount job =
      let t = totals_of l user in
      let debit : LedgerDebit = record {
        user_id = user;
        amount = amount;
        job_id = job;
        written_at = now;
      } in
      if ltb_ℤ (t.grant +ℤ t.earned -ℤ t.debited) amount then (l, false) else elim l.db [
        | none ↦ (record l { debits = l.debits ++ debit ∷ [] }, true)
        | some tables ↦
            if exec
            then (
              record l {
                debits = l.debits ++ debit ∷ [];
                db = some (record tables {
                  ledger_debits = tables.ledger_debits ++ debit_row debit ∷ [];
                });
              },
              true,
            )
            else (l, false)
      ]

  -- `RecordAdminAction`
  unfoldable pub record_admin_action : Bool → Ledger → AdminAction → Ledger × Option Error
  record_admin_action exec l a = elim l.db [
    | none ↦ (record l { admin_actions = l.admin_actions ++ a ∷ [] }, none)
    | some t ↦
        if exec
        then (
          record l {
            admin_actions = l.admin_actions ++ a ∷ [];
            db = some (record t { admin_actions = t.admin_actions ++ action_row a ∷ [] });
          },
          none,
        )
        else (l, some persist_admin_action)
  ]

  unfoldable pub scan_credit : CreditRow → CreditEntry
  scan_credit r = record {
    user_id = r.user_id;
    origin = r.origin;
    amount = r.amount;
    granted_or_earned_at = parse r.granted_or_earned_at;
    source_reference = r.source_reference;
  }

  unfoldable pub scan_debit : DebitRow → LedgerDebit
  scan_debit r = record {
    user_id = r.user_id;
    amount = r.amount;
    job_id = r.job_id;
    written_at = parse r.written_at;
  }

  unfoldable pub scan_action : ActionRow → AdminAction
  scan_action r = record {
    action = r.action;
    detail = r.detail;
    amount = r.amount;
    performed_at = parse r.performed_at;
  }

  -- `NewPersistentLedger` and `loadFromDB`, on tables that can be read.
  unfoldable pub load_from_db : Tables → Ledger
  load_from_db t = record {
    entries = map scan_credit t.credit_entries;
    debits = map scan_debit t.ledger_debits;
    admin_actions = map scan_action t.admin_actions;
    db = some t;
    on_credit = false;
  }

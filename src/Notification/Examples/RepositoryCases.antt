-- ===== src/Notification/Examples/RepositoryCases.antt =====
-- The theorems on modules/notification/infrastructure/persistence at a table of two rows.
use kopiochi.Prelude.{pos, ◌≡◌, refl, ◌⊎◌, false, none, [], ◌∷◌, Text, codes, elem, All}
use kopiochi.Notification.Domain.Types.{webhook, account, ok, err}
use kopiochi.Notification.Domain.Preference.{Preference, stored}
use kopiochi.Notification.Repository.Rows.{to_notification_row}
use kopiochi.Notification.Repository.Outbox.{claim_batch}
use kopiochi.Notification.Repository.Updates.{IdsUnique, ids}
use kopiochi.Notification.Repository.Claims.{claimed_in, claim_batch_disjoint}
use kopiochi.Notification.Repository.Preferences.{upsert}
use kopiochi.Notification.Repository.Upserts.{of_user, last_answer, upsert-stored}
use kopiochi.Notification.Examples.World.{two_rows}

two_rows-IdsUnique : IdsUnique two_rows
unfolding to_notification_row
two_rows-IdsUnique = (refl, (refl, tt))

claim_batch_disjoint_example :
    All
      (λ k.
        elem k.id (ids (claimed_in (claim_batch none (7 ∷ []) (pos 1) (pos 5000) two_rows).1))
        ≡ false)
      (claimed_in
        (claim_batch none
          (7 ∷ 8 ∷ [])
          (pos 5)
          (pos 6000)
          (claim_batch none (7 ∷ []) (pos 1) (pos 5000) two_rows).0).1)
claim_batch_disjoint_example =
    claim_batch_disjoint two_rows (7 ∷ []) (7 ∷ 8 ∷ []) (pos 1) (pos 5) (pos 5000) (pos 6000)
      two_rows-IdsUnique

abbrev webhook_off : Preference
webhook_off = record {
  user_id = 42;
  channel = webhook;
  category = account;
  enabled = false;
  updated_at = pos 5;
}

upsert-stored_example :
    (((upsert none (codes "21000") (webhook_off ∷ []) []).1 ≡ ok tt)
      × (stored (of_user 42 (upsert none (codes "21000") (webhook_off ∷ []) []).0) webhook account
          ≡ last_answer
              (webhook_off ∷ [])
              42
              webhook
              account
              (stored (of_user 42 []) webhook account)))
    ⊎ ((e : Text) × (upsert none (codes "21000") (webhook_off ∷ []) [] ≡ ([], err e)))
upsert-stored_example = upsert-stored none (codes "21000") (webhook_off ∷ []) 42 webhook account []

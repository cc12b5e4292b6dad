-- ===== src/Epoch/Backed/Begun.antt =====
-- quota_epoch.go: that a reset is backed by its sweep, and the begin of a sweep.
use cpa_codex_quota_schedule.Common.{
  ◌≤◌, Bool, true, [], Option, some, ◌≡◌, ◌≢◌, ◌⊎◌, not, ◌&&◌, ◌||◌, refl, sym, ◌∙◌, arith, inl,
  inr, Bool-cases, Text, Dict, lookup, insert, revise, length, length-insert_held, bit, count_where,
  count_where-insert_held, Time,
}
use cpa_codex_quota_schedule.Epoch.State.{
  Reason, bootstrap, inventory_change, provider_reset, Target, Sweep, World, is_reset, quorum,
}
use cpa_codex_quota_schedule.Epoch.Sweep.{
  is_held, begin_sweep, started_sweep, fresh_sweep, escalate, prepare_inventory, in_inventory,
}
use cpa_codex_quota_schedule.Epoch.Observe.{begin_on_evidence, or_empty}

abbrev pub shows : Target → Bool
shows t = t.evidence

-- An epoch of a reset was confirmed by a quorum of its sweep.
pub record IsBacked (w : World) : Type 0 where
  pub counted : w.epoch.sweep.required ≡ quorum (length w.epoch.sweep.targets)
  pub opened : w.epoch.sweep.active ≡ true → w.epoch.sweep.epoch_id ≡ []
  pub named : is_reset w.epoch.reason ≡ true → w.epoch.id ≢ []
  pub backed :
      is_reset w.epoch.reason ≡ true
      → w.epoch.id ≡ w.epoch.sweep.epoch_id
      → w.epoch.sweep.required ≤ count_where shows w.epoch.sweep.targets

-- With the sweep and the name of the epoch kept.
pub record IsKept (w v : World) : Type 0 where
  pub id_kept : v.epoch.id ≡ w.epoch.id
  pub reason_kept : v.epoch.reason ≡ w.epoch.reason
  pub sweep_kept : v.epoch.sweep ≡ w.epoch.sweep

pub kept-IsBacked : (w v : World) → IsKept w v → IsBacked w → IsBacked v
kept-IsBacked w v k b = record {
  counted = rw k.sweep_kept b.counted;
  opened = rw k.sweep_kept b.opened;
  named = rw (k.reason_kept, k.id_kept) b.named;
  backed = rw (k.reason_kept, k.id_kept, k.sweep_kept) b.backed;
}

-- A target that is replaced still shows what it did.
pub insert-IsBacked :
    (w : World) (id : Text) (t u : Target)
    → lookup id w.epoch.sweep.targets ≡ some t
    → bit (shows t) ≤ bit (shows u)
    → IsBacked w
    → IsBacked (record w {
      epoch = record w.epoch {
        sweep = record w.epoch.sweep { targets = insert id u w.epoch.sweep.targets };
      };
    })
insert-IsBacked w id t u l h b =
    let e = length-insert_held id t u w.epoch.sweep.targets l in
    let c = count_where-insert_held shows id t u w.epoch.sweep.targets l in
    record {
      counted = rw e b.counted;
      opened = b.opened;
      named = b.named;
      backed = λ r s. omega (arith, b.backed r s, c, h);
    }

-- A sweep that begins has confirmed no epoch.
begun-IsBacked :
    (w v : World)
    → v.epoch.id ≡ w.epoch.id
    → v.epoch.reason ≡ w.epoch.reason
    → v.epoch.sweep.required ≡ quorum (length v.epoch.sweep.targets)
    → v.epoch.sweep.epoch_id ≡ []
    → IsBacked w
    → IsBacked v
begun-IsBacked w v i r q e b = record {
  counted = q;
  opened = λ a. e;
  named = λ y. rw i (b.named (rw r at y));
  backed = λ y z. absurd (b.named (rw r at y) (sym i ∙ z ∙ e));
}

started_sweep-epoch_id :
    (s : Sweep) (why : Reason) (id trigger : Text) (now : Time)
    → (s.active ≡ true → s.epoch_id ≡ [])
    → (started_sweep s why id trigger now).0.epoch_id ≡ []
unfolding started_sweep escalate fresh_sweep
started_sweep-epoch_id s why id trigger now h = ground (arith, h)

begin_sweep-cases :
    (w : World) (i : Dict Text) (why : Reason) (id trigger : Text) (now : Time)
    → ((begin_sweep w i why id trigger now).0 ≡ w)
      ⊎ (((begin_sweep w i why id trigger now).0.epoch.sweep.required
            ≡ quorum (length (begin_sweep w i why id trigger now).0.epoch.sweep.targets))
          × ((begin_sweep w i why id trigger now).0.epoch.sweep.epoch_id
              ≡ (started_sweep w.epoch.sweep why id trigger now).0.epoch_id))
unfolding begin_sweep
begin_sweep-cases w i why id trigger now = ground arith

begin_sweep-id :
    (w : World) (i : Dict Text) (why : Reason) (id trigger : Text) (now : Time)
    → ((begin_sweep w i why id trigger now).0.epoch.id ≡ w.epoch.id)
      × ((begin_sweep w i why id trigger now).0.epoch.reason ≡ w.epoch.reason)
unfolding begin_sweep
begin_sweep-id w i why id trigger now = ground arith

pub begin_sweep-IsBacked :
    (w : World) (i : Dict Text) (why : Reason) (id trigger : Text) (now : Time)
    → IsBacked w
    → IsBacked (begin_sweep w i why id trigger now).0
begin_sweep-IsBacked w i why id trigger now b = elim (begin_sweep-cases w i why id trigger now) [
  | inl e ↦ rw e b
  | inr (q, e) ↦
      let k = begin_sweep-id w i why id trigger now in
      begun-IsBacked w (begin_sweep w i why id trigger now).0 k.0 k.1 q
        (e ∙ started_sweep-epoch_id w.epoch.sweep why id trigger now b.opened) b
]

pub begin_on_evidence-IsBacked :
    (w : World) (i : Dict Text) (id : Text) (o : Option Text) (now : Time)
    → IsBacked w
    → IsBacked (begin_on_evidence w i id o now)
unfolding begin_on_evidence
begin_on_evidence-IsBacked w i id o now b =
    elim (Bool-cases
      (is_held o && (not w.epoch.sweep.active || not (is_reset w.epoch.sweep.reason)))) [
        | inr c ↦ rw (c, begin_on_evidence) b
        | inl c ↦
            rw (c, begin_on_evidence)
              (begin_sweep-IsBacked w i provider_reset id (or_empty o) now b)
      ]

-- Without the accounts that the inventory no longer has.
pruned : World → Dict Text → World
pruned w i = record w {
  epoch = record w.epoch { accounts = revise (in_inventory i) w.epoch.accounts };
}

prepare_inventory-cases :
    (w : World) (i : Dict Text) (now : Time)
    → ((prepare_inventory w i now).0 ≡ pruned w i)
      ⊎ (((prepare_inventory w i now).0 ≡ (begin_sweep (pruned w i) i bootstrap [] [] now).0)
          ⊎ (((prepare_inventory w i now).0
                ≡ (begin_sweep
                    (pruned w i)
                    i
                    w.epoch.sweep.reason
                    w.epoch.sweep.trigger_auth_id
                    w.epoch.sweep.trigger_reason
                    now).0)
              ⊎ ((prepare_inventory w i now).0
                  ≡ (begin_sweep (pruned w i) i inventory_change [] [] now).0)))
unfolding prepare_inventory pruned
prepare_inventory-cases w i now = ground arith

pruned-IsBacked : (w : World) (i : Dict Text) → IsBacked w → IsBacked (pruned w i)
unfolding pruned
pruned-IsBacked w i b =
    kept-IsBacked w (pruned w i) (record { id_kept = refl; reason_kept = refl; sweep_kept = refl })
      b

pub prepare_inventory-IsBacked :
    (w : World) (i : Dict Text) (now : Time) → IsBacked w → IsBacked (prepare_inventory w i now).0
prepare_inventory-IsBacked w i now b =
    let v = pruned w i in
    let p = pruned-IsBacked w i b in
    let s = w.epoch.sweep in
    elim (prepare_inventory-cases w i now) [
      | inl e ↦ rw e p
      | inr (inl e) ↦ rw e (begin_sweep-IsBacked v i bootstrap [] [] now p)
      | inr (inr (inl e)) ↦
          rw e (begin_sweep-IsBacked v i s.reason s.trigger_auth_id s.trigger_reason now p)
      | inr (inr (inr e)) ↦ rw e (begin_sweep-IsBacked v i inventory_change [] [] now p)
    ]

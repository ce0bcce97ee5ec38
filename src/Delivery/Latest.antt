-- ===== src/Delivery/Latest.antt =====
-- The latest delivery of a requirement is the one with the greatest sequence number.
use mathlib.Core.Path.{subst}
use mathlib.Core.Option.{some-injective}
use mathlib.Core.List.{Memᴰ}
use codex_context_guard.Base.{
  ℕ, ◌≤◌, ◌<◌, ◌≡◌, ◌⊎◌, inl, inr, refl, true, false, Option, none, some, List, [], ◌∷◌, Text,
  text_eq, contains, arith, ok, All, All-map, Bool-cases,
}
use codex_context_guard.Delivery.{
  Delivery, DeliveryLedger, Digests, validate_ledger, latest_from, latest_delivery,
}
use codex_context_guard.Delivery.Laws.{InOrder, validate_ledger-IsSound}

-- The record does not mention the requirement, or is not later than another.
abbrev pub NotLater : Text → Delivery → Delivery → Type 0
NotLater key latest r =
    (contains r.reply.requirement_ids key ≡ false) ⊎ (r.sequence ≤ latest.sequence)

-- The latest of some records that mention the requirement.
pub record IsLatest (key : Text) (records : List Delivery) (latest : Delivery) : Type 0 where
  pub listed : Memᴰ latest records
  pub mentions : contains latest.reply.requirement_ids key ≡ true
  pub newest : All (NotLater key latest) records

abbrev Silent : Text → Delivery → Type 0
Silent key r = contains r.reply.requirement_ids key ≡ false

module _ (digests : Digests) (last : ℕ) (key : Text) where
  -- What the loop ends with: the latest record of the list, behind all that came before, or what it
  -- began with.
  latest_from-cases :
      (previous : ℕ) (latest : Option Delivery) (records : List Delivery) (r : Delivery)
      → InOrder digests last previous records
      → latest_from latest key records ≡ some r
      → (IsLatest key records r × (previous < r.sequence))
        ⊎ ((latest ≡ some r) × All (Silent key) records)
  unfolding latest_from
  latest_from-cases previous latest [] r o h = inr (h, tt)
  latest_from-cases previous latest (q ∷ rest) r (after, before, o) h =
      elim (Bool-cases (contains q.reply.requirement_ids key)) [
        | inl mentions ↦ elim (latest_from-cases q.sequence (some q) rest r o (rw mentions at h)) [
          | inl (found, later) ↦ inl (
            record {
              listed = Memᴰ.tail found.listed;
              mentions = found.mentions;
              newest = (inr (omega arith), found.newest);
            },
            omega arith,
          )
          | inr (same, silent) ↦
              let e : q ≡ r = some-injective q r same in
              inl (
                subst (λ d. IsLatest key (q ∷ rest) d × (previous < d.sequence)) e
                  (
                    record {
                      listed = Memᴰ.head refl;
                      mentions = mentions;
                      newest = (
                        inr (omega arith),
                        All-map (Silent key) (NotLater key q) rest (λ d s. inl s) silent,
                      );
                    },
                    after,
                  ))
        ]
        | inr silent ↦ elim (latest_from-cases q.sequence latest rest r o (rw silent at h)) [
          | inl (found, later) ↦ inl (
            record {
              listed = Memᴰ.tail found.listed;
              mentions = found.mentions;
              newest = (inl silent, found.newest);
            },
            omega arith,
          )
          | inr (same, others) ↦ inr (same, (silent, others))
        ]
      ]

-- In a ledger that passes validation, the delivery that is returned for a requirement is a record of
-- the ledger that mentions it, and no record that mentions it has a greater sequence number.
pub latest_delivery-IsLatest :
    (digests : Digests) (pinned : List Text) (ledger : DeliveryLedger) (key : Text) (r : Delivery)
    → validate_ledger digests pinned ledger ≡ ok tt
    → latest_delivery ledger.records key ≡ some r
    → IsLatest key ledger.records r
unfolding latest_delivery
latest_delivery-IsLatest digests pinned ledger key r sound h =
    elim (latest_from-cases digests ledger.sequence key 0 none ledger.records r
      (validate_ledger-IsSound digests pinned ledger sound).in_order h) [
        | inl (latest, _) ↦ latest
        | inr (impossible, _) ↦ cc
      ]

-- ===== src/Ipc/Rounds.antt =====
-- What a round of the loop of a consumer does to its ledger.
use zomboid_goblin.Protocol.{Codec, Message}
use zomboid_goblin.Ipc.{Texts, ReadyItem}
use zomboid_goblin.Ipc.Ledger.{RequestLedger, seen, remember, trim}
use zomboid_goblin.Ipc.Consumers.{
  is_caught, Consumed, Consumer, Inbox, bury, record_taken, take_message, consume,
}
use zomboid_goblin.Memory.{or_clock}
use zomboid_goblin.Text.Ids.{request_id_match}
use zomboid_goblin.Base.{
  ℕ, String, ◌≡◌, refl, inl, inr, false, Option, none, some, Bool-cases, ℕ_eq, String_eq, Pair_eq,
}
use zomboid_goblin.Exec.{Error, value_error, Result, ok, err}
use zomboid_goblin.Dict.{insert}

-- What one round does to the ledger: nothing, or one identity more, which was not in it.
abbrev pub IsRound : RequestLedger → Result (Option Consumed) → RequestLedger → Type 0
IsRound l (err x) l' = l' ≡ l
IsRound l (ok none) l' = l' ≡ l
IsRound l (ok (some c)) l' =
    (seen c.message.request_id l ≡ false)
    × (time : ℕ) × (l'
        ≡ record l { entries = trim l.max_entries (insert c.message.request_id time l.entries) })

module _ {B : Type 0} (codec : Codec B) (texts : Texts B) (uuid : ℕ → String) (most : ℕ) where
  bury-IsRound :
      (item : ReadyItem) (x : Error) (clock : ℕ) (i : Inbox B)
      → let r = bury codec texts uuid most item x clock i in IsRound i.ledger r.0 r.1.ledger
  unfolding bury
  bury-IsRound item x clock i = elim (Bool-cases (is_caught x)) [
    | inl caught ↦ rw caught refl
    | inr other ↦ rw other refl
  ]

  record_taken-IsRound :
      (item : ReadyItem) (m : Message) (clock : ℕ) (i : Inbox B)
      → seen m.request_id i.ledger ≡ false
      → let r =
          record_taken codec texts uuid most item m
            (remember m.request_id (some m.timestamp_ms) clock i.ledger)
            clock
            i in
        IsRound i.ledger r.0 r.1.ledger
  unfolding record_taken remember
  record_taken-IsRound item m clock i h = elim (Bool-cases (request_id_match m.request_id)) [
    | inl good ↦ rw good (h, or_clock (some m.timestamp_ms) clock, refl)
    | inr bad ↦ rw bad (bury-IsRound item (value_error "invalid request id") clock i)
  ]

  take_message-IsRound :
      (c : Consumer) (item : ReadyItem) (r : Result Message) (clock : ℕ) (i : Inbox B)
      → let o = take_message codec texts uuid most c item r clock i in
        IsRound i.ledger o.0 o.1.ledger
  unfolding take_message
  take_message-IsRound c item (err x) clock i = bury-IsRound item x clock i
  take_message-IsRound c item (ok m) clock i = elim (Bool-cases (seen m.request_id i.ledger)) [
    | inl again ↦ rw again refl
    | inr new ↦ rw new (record_taken-IsRound item m clock i new)
  ]

  pub consume-IsRound :
      (c : Consumer) (now : ℕ) (item : ReadyItem) (i : Inbox B)
      → let o = consume codec texts uuid most c now item i in IsRound i.ledger o.0 o.1.ledger
  unfolding consume
  consume-IsRound c now item i = take_message-IsRound c item _ now i

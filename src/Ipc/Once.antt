-- ===== src/Ipc/Once.antt =====
-- Each request identity is taken off a channel at most once.
use zomboid_goblin.Ipc.Rounds.{IsRound, consume-IsRound}
use zomboid_goblin.Ipc.Taken.{Took, with_id, trim_room, Took-none, Took-one, Took-lost, Took-append}
use zomboid_goblin.Protocol.{Codec}
use zomboid_goblin.Ipc.{Texts, ReadyItem, BridgeStore, ready_stems}
use zomboid_goblin.Ipc.Ledger.{RequestLedger, seen}
use zomboid_goblin.Ipc.Consumers.{
  Loop, taking, Consumed, Consumer, Inbox, consume, consume_all, poll,
}
use mathlib.Core.Path.{subst}
use zomboid_goblin.Base.{
  ℕ, zero, suc, ◌+◌, ◌≤◌, String, ◌≡◌, refl, sym, ap, ◌∙◌, true, false, Option, none, some, List,
  [], ◌∷◌, ◌++◌, map, arith, ℕ_eq, String_eq, Pair_eq, elem, length, All, Distinct,
}
use zomboid_goblin.Exec.{Result, ok, err, and_then}
use zomboid_goblin.Dict.{length-insert}

-- The identities of what is taken.
abbrev pub ids : List Consumed → List String
ids taken = map (λ c. c.message.request_id) taken

length-ids : (cs : List Consumed) → length (ids cs) ≡ length cs
length-ids [] = refl
length-ids (c ∷ cs) = ap suc (length-ids cs)

ids-append : (a b : List Consumed) → ids (a ++ b) ≡ ids a ++ ids b
ids-append [] b = refl
ids-append (c ∷ a) b = ap (λ x. c.message.request_id ∷ x) (ids-append a b)

-- A poll that raises hands nothing out.
abbrev pub taken_of : Result (List Consumed) → List Consumed
taken_of (ok cs) = cs
taken_of (err x) = []

module _ {B : Type 0} (codec : Codec B) (texts : Texts B) (uuid : ℕ → String) (most : ℕ) where
  abbrev TakesFrom : ℕ → RequestLedger → (Result (List Consumed) × Inbox B) → Type 0
  TakesFrom room l o = Took room l o.1.ledger (ids (taken_of o.0))

  handed_on :
      (room time : ℕ) (c : Consumed) (l : RequestLedger) (r : Result (List Consumed))
      (l' : RequestLedger)
      → seen c.message.request_id l ≡ false
      → Took room (with_id c.message.request_id time l) l' (ids (taken_of r))
      → Took (suc room) l l' (ids (taken_of (and_then r λ rest. ok (c ∷ rest))))
  handed_on room time c l (ok rest) l' new t = Took-one room c.message.request_id time l l' _ new t
  handed_on room time c l (err x) l' new t =
      Took-lost (suc room) l l' _ (Took-one room c.message.request_id time l l' _ new t)

  taking-Took :
      (room : ℕ) (o : Result (Option Consumed)) (without_it with_it : Loop codec texts uuid most)
      (l : RequestLedger) (i : Inbox B)
      → IsRound l o i.ledger
      → length l.entries + suc room ≤ l.max_entries
      → (length i.ledger.entries + suc room ≤ i.ledger.max_entries
          → TakesFrom (suc room) i.ledger (without_it i))
      → (length i.ledger.entries + room ≤ i.ledger.max_entries
          → TakesFrom room i.ledger (with_it i))
      → TakesFrom (suc room) l (taking codec texts uuid most o without_it with_it i)
  unfolding taking
  taking-Took room (err x) without_it with_it l i e h f g =
      subst (λ y. Took (suc room) l y []) (sym e) (Took-none (suc room) l)
  taking-Took room (ok none) without_it with_it l i e h f g =
      subst (λ x. TakesFrom (suc room) x (without_it i)) e (f (rw e h))
  taking-Took room (ok (some c)) without_it with_it l i (new, time, e) h f g =
      let id = c.message.request_id in
      let e' : i.ledger ≡ with_id id time l =
        e
        ∙ ap (λ d. record l { entries = d })
            (trim_room l.max_entries time id l.entries (omega (arith, h))) in
      let t = g (rw e' (ground (arith, length-insert id time l.entries, new, h))) in
      handed_on room time c l (with_it i).0 (with_it i).1.ledger new
        (subst (λ x. Took room x (with_it i).1.ledger (ids (taken_of (with_it i).0))) e' t)

  consume_all-Took :
      (c : Consumer) (now : ℕ) (stems : List String) (room : ℕ) (i : Inbox B)
      → length i.ledger.entries + room ≤ i.ledger.max_entries
      → TakesFrom room i.ledger (consume_all codec texts uuid most c now stems room i)
  unfolding consume_all
  consume_all-Took c now [] room i h = Took-none room i.ledger
  consume_all-Took c now (stem ∷ stems) zero i h = Took-none 0 i.ledger
  consume_all-Took c now (stem ∷ stems) (suc room) i h =
      let item : ReadyItem = record { channel = c.channel; stem = stem } in
      let i' = (consume codec texts uuid most c now item i).1 in
      taking-Took room _ _ _ i.ledger i' (consume-IsRound codec texts uuid most c now item i) h
        (consume_all-Took c now stems (suc room) i') (consume_all-Took c now stems room i')

  -- A poll with its limit and its time, and what happens to the files in front of it.
  pub record Round : Type 0 where
    pub changed : BridgeStore B → BridgeStore B
    pub limit : ℕ
    pub now : ℕ

  unfoldable pub poll_all : Consumer → List Round → Inbox B → List Consumed × Inbox B
  unfolding poll
  poll_all c [] i = ([], i)
  poll_all c (r ∷ rounds) i =
      let (taken, i') =
        poll codec texts uuid most c r.limit r.now (record i { store = r.changed i.store }) in
      let (more, i'') = poll_all c rounds i' in (taken_of taken ++ more, i'')

  abbrev pub limits : List Round → ℕ
  limits [] = 0
  limits (r ∷ rounds) = r.limit + limits rounds

  poll_all-Took :
      (c : Consumer) (rounds : List Round) (i : Inbox B)
      → length i.ledger.entries + limits rounds ≤ i.ledger.max_entries
      → Took (limits rounds) i.ledger (poll_all c rounds i).1.ledger (ids (poll_all c rounds i).0)
  unfolding poll_all poll
  poll_all-Took c [] i h = Took-none 0 i.ledger
  poll_all-Took c (r ∷ rounds) i h =
      let i1 : Inbox B = record i { store = r.changed i.store } in
      let stems = ready_stems c.channel i1.store.files in
      let o = consume_all codec texts uuid most c r.now stems r.limit i1 in
      let t = consume_all-Took c r.now stems r.limit i1 (omega (arith, h)) in
      let u = poll_all-Took c rounds o.1 (omega (arith, h, t.grown, t.bound)) in
      subst (Took (r.limit + limits rounds) i.ledger (poll_all c rounds o.1).1.ledger)
        (sym (ids-append (taken_of o.0) (poll_all c rounds o.1).0))
        (Took-append r.limit (limits rounds) i.ledger o.1.ledger _ (ids (taken_of o.0)) _ t u)

  -- However the files change between the polls of a consumer, and whether or not one raises, a request
  -- identity is handed out at most once, and never one that the ledger knew before, while the ledger has
  -- room for all that the polls may take; what is handed out is known from then on.
  pub poll_all_once :
      (c : Consumer) (rounds : List Round) (i : Inbox B)
      → length i.ledger.entries + limits rounds ≤ i.ledger.max_entries
      → Distinct (ids (poll_all c rounds i).0)
        × All (λ id. seen id i.ledger ≡ false) (ids (poll_all c rounds i).0)
        × ((id : String)
            → elem id (ids (poll_all c rounds i).0) ≡ true
            → seen id (poll_all c rounds i).1.ledger ≡ true)
  poll_all_once c rounds i h =
      let t = poll_all-Took c rounds i h in
      (t.distinct, t.fresh, λ id e. t.known id (ground (arith, e)))

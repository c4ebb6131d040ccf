-- ===== src/Mind.antt =====
-- goblin_zomboid/mind.py: the tables that sentience.py writes and reads, for `record`, `set_opinion`,
-- `nudge_opinion`, `opinion`, `save_self` and `load_self`. A table is a list of rows, the newest
-- first. `clock` gives the reading of the clock for each write; floats are an abstract `Opinion`.
use zomboid_goblin.Json.{ℤ, pos, negsuc, Value}
use zomboid_goblin.Text.Trim.{take_chars, strip}
use zomboid_goblin.Text.Tables.{CharTables}
use zomboid_goblin.Sentience.{Episode, SelfState, Mind}
use zomboid_goblin.Base.{
  ℕ, ◌+◌, ◌≤◌, ◌<◌, min, String, ◌≡◌, refl, inl, inr, Bool, not, ◌&&◌, ◌||◌, Option, none, some,
  List, [], ◌∷◌, ◌++◌, map, arith, ltb, leb, if◌then◌else◌, leb→le, Bool-cases, ◌==◌, ℕ_eq,
  String_eq, Pair_eq, elem, take, keep_if,
}
use zomboid_goblin.Dict.{Dict, lookup, insert, lookup-insert}

-- What the code uses of the floats of an opinion, with its two bounds and 0.35
pub record Opinion (P : Type 0) : Type 0 where
  pub nothing : P
  pub highest : P
  pub lowest : P
  pub third : P
  pub plus : P → P → P
  pub minus : P → P → P
  pub times : P → P → P
  pub less : P → P → Bool
  pub of_thousandths : ℤ → P
  pub of_value : Value → P

-- `json` on a self, with texts and `text[:n]`. A whole text is read back; one that is cut off in the
-- middle of an object is no JSON.
pub record SelfCodec (T : Type 0) : Type 0 where
  pub dumps : SelfState → T
  pub loads : T → Option SelfState
  pub size : T → ℕ
  pub cut : ℕ → T → T
  pub loads_whole : (s : SelfState) (n : ℕ) → size (dumps s) ≤ n → loads (cut n (dumps s)) ≡ some s
  pub loads_part : (s : SelfState) (n : ℕ) → n < size (dumps s) → loads (cut n (dumps s)) ≡ none

-- A row of `episodes`
pub record EpisodeRow : Type 0 where
  pub id : ℕ
  pub npc_id : String
  pub at : ℕ
  pub kind : String
  pub text : String
  pub day : Option ℤ
  pub importance : ℕ
  pub valence : ℤ
  pub place : Option String

-- A row of `opinions`, without its key
pub record OpinionRow (P : Type 0) : Type 0 where
  pub value : P
  pub note : Option String
  pub updated : ℕ

pub record GoblinMind (P T : Type 0) : Type 0 where
  pub next_id : ℕ
  pub reads : ℕ
  pub episodes : List EpisodeRow
  pub opinions : Dict (String × (String × String)) (OpinionRow P)
  pub self_state : Dict String (T × ℕ)

abbrev pub new_mind : {P T : Type 0} → GoblinMind P T
new_mind = record { next_id = 1; reads = 0; episodes = []; opinions = []; self_state = [] }

-- `max(-1.0, min(1.0, valence))`
abbrev clamp_valence : ℤ → ℤ
clamp_valence (pos n) = pos (min n 1000)
clamp_valence (negsuc n) = negsuc (min n 999)

-- `ORDER BY importance DESC, id DESC`
abbrev goes_before : EpisodeRow → EpisodeRow → Bool
goes_before a b = ltb b.importance a.importance || a.importance == b.importance && ltb b.id a.id

abbrev put_row : EpisodeRow → List EpisodeRow → List EpisodeRow
put_row r [] = r ∷ []
put_row r (q ∷ qs) = let rest = put_row r qs in if goes_before r q then r ∷ q ∷ qs else q ∷ rest

unfoldable pub by_importance : List EpisodeRow → List EpisodeRow
by_importance [] = []
by_importance (r ∷ rs) = put_row r (by_importance rs)

abbrev ids_of : List EpisodeRow → List ℕ
ids_of rows = map (λ r. r.id) rows

-- The rows that `DELETE FROM episodes` leaves
unfoldable pub pruned : String → List EpisodeRow → List EpisodeRow
unfolding by_importance
pruned npc_id rows =
    let own = keep_if (λ r. r.npc_id == npc_id) rows in
    let kept = ids_of (take 400 own) ++ ids_of (take 100 (by_importance own)) in
    keep_if (λ r. not (r.npc_id == npc_id) || elem r.id kept) rows

abbrev first_chars : ℕ → Option String → Option String
first_chars n none = none
first_chars n (some s) = some (take_chars n s)

-- `COALESCE(excluded.note, opinions.note)`
abbrev either_note : Option String → Option String → Option String
either_note (some note) old = some note
either_note none old = old

module _ {P T : Type 0} (tables : CharTables) (lower : String → String) (floats : Opinion P)
    (codec : SelfCodec T) (clock : ℕ → ℕ) where
  open floats use {
    nothing, highest, lowest, third, plus, minus, times, less, of_thousandths, of_value,
  }

  -- `record`, without entities
  unfoldable pub record_row : String → Episode → GoblinMind P T → GoblinMind P T
  unfolding pruned strip take_chars
  record_row npc_id e m =
      let text = take_chars 240 e.text in
      let row : EpisodeRow = record {
        id = m.next_id;
        npc_id = npc_id;
        at = clock m.reads;
        kind = take_chars 32 e.kind;
        text = text;
        day = e.day;
        importance = min e.importance 1000;
        valence = clamp_valence e.valence;
        place = first_chars 48 e.place;
      } in
      if strip tables text == "" then m else record m {
        next_id = m.next_id + 1;
        reads = m.reads + 1;
        episodes = pruned npc_id (row ∷ m.episodes);
      }

  -- `(npc_id, str(subject)[:40].lower(), str(trait)[:24].lower())`
  abbrev opinion_key : String → String → String → String × (String × String)
  opinion_key npc_id subject trait =
      (npc_id, (lower (take_chars 40 subject), lower (take_chars 24 trait)))

  abbrev value_of : Option (OpinionRow P) → P
  value_of none = nothing
  value_of (some r) = r.value

  abbrev note_of : Option (OpinionRow P) → Option String
  note_of none = none
  note_of (some r) = r.note

  -- `opinion`
  unfoldable pub opinion : String → String → String → GoblinMind P T → P
  opinion npc_id subject trait m = value_of (lookup (opinion_key npc_id subject trait) m.opinions)

  -- `max(-1.0, min(1.0, value))`
  abbrev clamped : P → P
  clamped v =
      let top = if less v highest then v else highest in if less lowest top then top else lowest

  -- `set_opinion`
  unfoldable pub set_opinion :
      String → String → String → P → Option String → GoblinMind P T → GoblinMind P T
  set_opinion npc_id subject trait value note m =
      let key = opinion_key npc_id subject trait in
      let row : OpinionRow P = record {
        value = clamped value;
        note = either_note (first_chars 120 note) (note_of (lookup key m.opinions));
        updated = clock m.reads;
      } in
      record m { reads = m.reads + 1; opinions = insert key row m.opinions }

  -- `nudge_opinion`
  unfoldable pub nudge : String → String → String → ℤ → GoblinMind P T → GoblinMind P T
  unfolding set_opinion opinion
  nudge npc_id subject trait delta m =
      set_opinion npc_id subject trait
        (plus (opinion npc_id subject trait m) (of_thousandths delta)) none m

  -- The opinion of `apply_reflection` in sentience.py: `old + (float(value) - old) * 0.35`
  unfoldable pub drift_toward :
      String → String → String → Value → Option String → GoblinMind P T → GoblinMind P T
  unfolding set_opinion opinion
  drift_toward npc_id subject trait value note m =
      let old = opinion npc_id subject trait m in
      set_opinion npc_id subject trait (plus old (times (minus (of_value value) old) third)) note m

  abbrev loaded : Option (T × ℕ) → Option SelfState
  loaded none = none
  loaded (some row) = codec.loads row.0

  -- `load_self`
  unfoldable pub load_row : String → GoblinMind P T → Option SelfState
  load_row npc_id m = loaded (lookup npc_id m.self_state)

  -- `save_self`
  unfoldable pub save_row : String → SelfState → GoblinMind P T → GoblinMind P T
  save_row npc_id s m = record m {
    reads = m.reads + 1;
    self_state = insert npc_id (codec.cut 16000 (codec.dumps s), clock m.reads) m.self_state;
  }

  abbrev short_enough : SelfState → Bool
  short_enough s = leb (codec.size (codec.dumps s)) 16000

  pub load_row-nudge :
      (j k a b : String) (n : ℤ) (m : GoblinMind P T) → load_row j (nudge k a b n m) ≡ load_row j m
  unfolding load_row nudge set_opinion
  load_row-nudge j k a b n m = refl

  pub load_row-drift_toward :
      (j k a b : String) (v : Value) (note : Option String) (m : GoblinMind P T)
      → load_row j (drift_toward k a b v note m) ≡ load_row j m
  unfolding load_row drift_toward set_opinion
  load_row-drift_toward j k a b v remark m = refl

  pub load_row-record_row :
      (j k : String) (e : Episode) (m : GoblinMind P T)
      → load_row j (record_row k e m) ≡ load_row j m
  unfolding load_row record_row
  load_row-record_row j k e m = elim (Bool-cases (strip tables (take_chars 240 e.text) == "")) [
    | inl blank ↦ rw blank refl
    | inr fine ↦ rw fine refl
  ]

  -- The text that is stored is read back as the self, or as nothing if it was cut off.
  loads_stored :
      (s : SelfState)
      → codec.loads (codec.cut 16000 (codec.dumps s)) ≡ (if short_enough s then some s else none)
  loads_stored s = elim (Bool-cases (short_enough s)) [
    | inl short ↦
        rw short (codec.loads_whole s 16000 (leb→le (codec.size (codec.dumps s)) 16000 short))
    | inr long ↦ rw long (codec.loads_part s 16000 (ground (arith, long)))
  ]

  pub load_row-save_row :
      (j k : String) (s : SelfState) (m : GoblinMind P T)
      → load_row j (save_row k s m)
        ≡ (if j == k then (if short_enough s then some s else none) else load_row j m)
  unfolding load_row save_row
  load_row-save_row j k s m = elim (Bool-cases (j == k)) [
    | inl same ↦ rw (lookup-insert, same) (loads_stored s)
    | inr other ↦ rw (lookup-insert, other) refl
  ]

  -- The calls of sentience.py on these tables
  unfoldable pub goblin_mind : Mind (GoblinMind P T)
  goblin_mind = record {
    record_episode = record_row;
    nudge_opinion = nudge;
    drift_opinion = drift_toward;
    load_self = load_row;
    save_self = save_row;
    fits = short_enough;
    load_self-record_episode = load_row-record_row;
    load_self-nudge_opinion = load_row-nudge;
    load_self-drift_opinion = load_row-drift_toward;
    load_self-save_self = load_row-save_row;
  }

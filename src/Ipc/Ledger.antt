-- ===== src/Ipc/Ledger.antt =====
-- `RequestLedger` of goblin_zomboid/ipc.py: the identities that have been taken. Its file is the
-- dictionary itself.
use zomboid_goblin.Memory.{or_clock}
use zomboid_goblin.Text.Ids.{request_id_match}
use zomboid_goblin.Base.{
  ℕ, String, Bool, Option, [], ◌∷◌, leb, if◌then◌else◌, ℕ_eq, String_eq, Pair_eq, length, take,
  keep_if,
}
use zomboid_goblin.Exec.{value_error, Result, ok, err}
use zomboid_goblin.Dict.{Dict, contains, insert}

pub record RequestLedger : Type 0 where
  pub max_entries : ℕ
  pub entries : Dict String ℕ

-- The order of `sorted` with `reverse=True`: equal times keep their places
abbrev pub put_newest : String × ℕ → Dict String ℕ → Dict String ℕ
put_newest e [] = e ∷ []
put_newest e (d ∷ ds) = let rest = put_newest e ds in if leb d.1 e.1 then e ∷ d ∷ ds else d ∷ rest

abbrev pub newest : Dict String ℕ → Dict String ℕ
newest [] = []
newest (e ∷ es) = put_newest e (newest es)

-- `_trim`
unfoldable pub trim : ℕ → Dict String ℕ → Dict String ℕ
trim most entries = if leb (length entries) most then entries else take most (newest entries)

-- `seen`
abbrev pub seen : String → RequestLedger → Bool
seen request_id l = contains request_id l.entries

-- `remember`
unfoldable pub remember : String → Option ℕ → ℕ → RequestLedger → Result RequestLedger
unfolding trim
remember request_id timestamp clock l =
    if request_id_match request_id
    then ok (record l {
      entries = trim l.max_entries (insert request_id (or_clock timestamp clock) l.entries);
    })
    else err (value_error "invalid request id")

-- `_load`, of the entries with an identity and a whole number
unfoldable pub loaded : ℕ → Dict String ℕ → RequestLedger
unfolding trim
loaded most raw = record {
  max_entries = most;
  entries = trim most (keep_if (λ e. request_id_match e.0) raw);
}

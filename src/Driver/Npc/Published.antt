-- ===== src/Driver/Npc/Published.antt =====
-- What stands behind every command that reaches the bridge.
use zomboid_goblin.Ipc.{named, named_file, encoded_file}
use zomboid_goblin.Driver.Npc.{reported, failed_result, command_message}
use zomboid_goblin.Exec.{file_exists}
use zomboid_goblin.Base.{
  ℕ, suc, zero, ◌∙◌, ap, ◌≢◌, false≢true, Bool, Bool-cases, is_some, ◌==◌, if◌then◌else◌,
}
use zomboid_goblin.Protocol.{Codec, Message, encode_message, decode_message, as_dict, or_fresh}
use zomboid_goblin.Ipc.{
  Texts, BridgeStore, has_file, json_name, ready_name, put_files, put_new, prepared_file,
  publish_on, check_channel, check_stem,
}
use zomboid_goblin.Validator.Clean.{and_then-ok}
use zomboid_goblin.Exec.{os_error}
use zomboid_goblin.Base.{sym, Bool-cases, ℕ, ◌==◌, ◌≢◌, if◌then◌else◌, ap, is_some, ◌∙◌}
use zomboid_goblin.Text.Trim.{count-take_chars-le}
use zomboid_goblin.Driver.Gate.{admit}
use zomboid_goblin.Driver.Gate.Admitted.{admit-IsSafe, IsSafe}
use zomboid_goblin.Controllers.Intent.{SafeAction}
use zomboid_goblin.Driver.Npc.{
  NpcBodyDriver, command, refusal, NpcCommand, is_privileged, is_offline_task, valid_token,
  needs_token, available, Call, execute, send, published_result, deliver, reported, failed_result,
}
use zomboid_goblin.Driver.Gate.{DriverResult}
use zomboid_goblin.Text.Tables.{CharTables}
use zomboid_goblin.Base.{
  ◌≤◌, String, count, ◌≡◌, refl, ◌⊎◌, inl, inr, true, false, not, ◌&&◌, ◌||◌, Option, none, some,
  arith, ℕ_eq, String_eq, Pair_eq,
}
use zomboid_goblin.Exec.{Error, Result, ok, err}

-- The grounds for a command: an action that the gate calls safe, for the selected Goblin, whose engine
-- is ready; with a valid token where one is needed, which the command carries; and offline only a
-- task that is meant for it.
pub record IsEntitled (tables : CharTables) (d : NpcBodyDriver) (call : Call) (c : NpcCommand)
    : Type 0 where
  pub safe : IsSafe tables c.controller_action
  pub own : (c.controller_action.npc_id ≡ d.npc_id) × (c.npc_id ≡ d.npc_id)
  pub same : c.action ≡ c.controller_action.action
  pub ready : (d.control_ready ≡ true) × (d.npc_engine_ready ≡ true)
  pub authority :
      (c.autonomous || is_privileged c.action) ≡ true
      → (c.authority_token ≡ call.authority_token) × (valid_token c.authority_token ≡ true)
  pub no_authority : (c.autonomous || is_privileged c.action) ≡ false → c.authority_token ≡ none
  pub offline : c.autonomous ≡ true → is_offline_task c.action ≡ true
  pub reason : count c.reason ≤ 240

module _ (tables : CharTables) where
  refusal_parts :
      (d : NpcBodyDriver) (call : Call) (a : SafeAction)
      → refusal tables d call a ≡ none
      → ((admit tables a).accepted ≡ true)
        × (a.npc_id ≡ d.npc_id)
        × ((call.autonomous && not (is_offline_task a.action)) ≡ false)
        × ((needs_token call a && not (valid_token call.authority_token)) ≡ false)
        × (available d ≡ true)
  unfolding refusal
  refusal_parts d call a h = (
    ground arith,
    (String_eq.beq_iff a.npc_id d.npc_id).0 (ground arith),
    ground arith,
    ground arith,
    ground arith,
  )

  command-IsEntitled :
      (request_id : String) (d : NpcBodyDriver) (call : Call) (a : SafeAction)
      → refusal tables d call a ≡ none
      → IsEntitled tables d call (command tables request_id d call a)
  unfolding command
  command-IsEntitled request_id d call a h =
      let (gate, own, offline, token, ready) = refusal_parts d call a h in
      record {
        safe = admit-IsSafe tables a gate;
        own = (own, refl);
        same = refl;
        ready = (ground arith, ground arith);
        authority = λ e. (ground arith, ground arith);
        no_authority = λ e. ground arith;
        offline = λ e. ground arith;
        reason = count-take_chars-le 240 a.reason;
      }

  -- A refusal is not an acceptance.
  refusal-refuses :
      (d : NpcBodyDriver) (call : Call) (a : SafeAction) (r : DriverResult)
      → refusal tables d call a ≡ some r
      → r.accepted ≡ false
  unfolding refusal
  refusal-refuses d call a r h = ground (arith, Bool-cases (admit tables a).accepted)

file_parts :
    {B : Type 0} (x y : String) (b c : B)
    → ◌≡◌ {A = Result (String × B)} (ok (x, b)) (ok (y, c))
    → (x ≡ y) × (b ≡ c)
file_parts x y b c e = (cc, cc)

or_fresh_full :
    {B : Type 0} (codec : Codec B) (id fresh : String)
    → (id == "") ≡ false
    → or_fresh codec (some id) fresh ≡ id
or_fresh_full codec id fresh full = rw full refl

Result-cases : {A : Type 0} (r : Result A) → ((a : A) × (r ≡ ok a)) ⊎ ((x : Error) × (r ≡ err x))
Result-cases (ok a) = inl (a, refl)
Result-cases (err x) = inr (x, refl)

module _ {B : Type 0} (codec : Codec B) (texts : Texts B) (uuid : ℕ → String) (most : ℕ)
    (disk : Option ℕ) where
  -- The bytes are those of the message, under a stem that no file had.
  pub record IsNewFile (m : Message) (request_id : String) (b : B) (s : BridgeStore B)
      : Type 0 where
    pub bytes : encode_message codec most (as_dict m) ≡ ok b
    pub fresh :
        (has_file "commands" (json_name request_id) s.files
          || has_file "commands" (ready_name request_id) s.files)
        ≡ false

  prepared_file_lem :
      (m : Message) (request_id name : String) (b : B)
      → (request_id == "") ≡ false
      → prepared_file codec texts uuid most "commands" (as_dict m) (some request_id) ≡ ok (name, b)
      → (name ≡ request_id) × (encode_message codec most (as_dict m) ≡ ok b)
  unfolding prepared_file
  prepared_file_lem m request_id name b full e =
      let file = named_file codec texts uuid most (some request_id) in
      let label = λ (v : Message). or_fresh codec (some request_id) v.request_id in
      let (u, known, e1) =
        and_then-ok (check_channel "commands")
          (λ _. encoded_file codec texts uuid most (as_dict m) (some request_id)) (name, b) e in
      let (bytes, made, e2) =
        and_then-ok (encode_message codec most (as_dict m)) file (name, b) e1 in
      let (read, decoded, e3) =
        and_then-ok (decode_message codec none 0 most bytes)
          (λ v. named codec texts uuid most (label v) bytes) (name, b) e2 in
      let (v, safe, e4) =
        and_then-ok (check_stem (label read)) (λ _. ok (label read, bytes)) (name, b) e3 in
      let (stem_same, bytes_same) = file_parts (label read) name bytes b e4 in
      (sym stem_same ∙ or_fresh_full codec request_id read.request_id full, made ∙ ap ok bytes_same)

  -- What a message may do to the bridge: nothing, with another answer than "published"; or its file is
  -- written, with the ready mark and the index behind it, of which a disk that fails leaves the first.
  abbrev Sends :
      String → Result Message → BridgeStore B → BridgeStore B → Result DriverResult → Type 0
  Sends request_id q s s' r =
      ((s' ≡ s) × (r ≢ ok (published_result request_id)))
      ⊎ ((m : Message) × (q ≡ ok m)
          × ((b : B) × IsNewFile m request_id b s
              × (s' ≡ (put_files codec texts uuid most disk "commands" request_id b true s).1)
              × (r
                  ≡ ok (
                      if is_some disk
                      then failed_result os_error
                      else published_result request_id))))

  -- The answer to the writing of a file
  reported_written :
      (full : Option ℕ) (request_id : String) (b : B) (s : BridgeStore B)
      → reported codec texts uuid most disk request_id
          (put_files codec texts uuid most full "commands" request_id b true s)
        ≡ (
          ok (if is_some full then failed_result os_error else published_result request_id),
          (put_files codec texts uuid most full "commands" request_id b true s).1,
        )
  unfolding put_files
  reported_written none request_id b s = refl
  reported_written (some zero) request_id b s = refl
  reported_written (some (suc zero)) request_id b s = refl
  reported_written (some (suc (suc zero))) request_id b s = refl
  reported_written (some (suc (suc (suc n)))) request_id b s = refl

  accepted_of : Result DriverResult → Bool
  accepted_of (ok r) = r.accepted
  accepted_of (err x) = false

  -- An answer that is no acceptance is not "published".
  not_published :
      (request_id : String) (r : Result DriverResult)
      → accepted_of r ≡ false
      → r ≢ ok (published_result request_id)
  unfolding accepted_of
  not_published request_id r h e = false≢true (sym h ∙ ap accepted_of e)

  new_file-Sends :
      (m : Message) (request_id : String) (b : B) (s : BridgeStore B)
      → encode_message codec most (as_dict m) ≡ ok b
      → let (r, s') =
          reported codec texts uuid most disk request_id
            (put_new codec texts uuid most disk "commands" true (ok (request_id, b)) s) in
        Sends request_id (ok m) s s' r
  unfolding accepted_of
  new_file-Sends m request_id b s bytes =
      elim (Bool-cases (
        has_file "commands" (json_name request_id) s.files
        || has_file "commands" (ready_name request_id) s.files)) [
          | inl there ↦
              rw there (inl (refl, not_published request_id (ok (failed_result file_exists)) refl))
          | inr absent ↦
              rw (absent, reported_written disk request_id b s)
                (inr (m, refl, (b, record { bytes = bytes; fresh = absent }, refl, refl)))
        ]

  send-Sends :
      (request_id : String) (q : Result Message) (s : BridgeStore B)
      → (request_id == "") ≡ false
      → let (r, s') = send codec texts uuid most disk request_id q s in Sends request_id q s s' r
  unfolding send publish_on accepted_of
  send-Sends request_id (err x) s full = inl (refl, not_published request_id (err x) refl)
  send-Sends request_id (ok m) s full =
      elim (Result-cases
        (prepared_file codec texts uuid most "commands" (as_dict m) (some request_id))) [
          | inl ((name, b), e) ↦
              let (same, bytes) = prepared_file_lem m request_id name b full e in
              rw (e, same) (new_file-Sends m request_id b s bytes)
          | inr (x, e) ↦ rw e (inl (refl, not_published request_id (ok (failed_result x)) refl))
        ]

  module _ (tables : CharTables) (request_id : String) (clock : ℕ) (d : NpcBodyDriver) (call : Call)
      (a : SafeAction) (s : BridgeStore B) where
    -- What a call may do, given the state and the result that it ends in: nothing, and then it does
    -- not report "published"; or the writing of the file of one command that it is entitled to.
    pub Outcome : BridgeStore B → Result DriverResult → Type 0
    Outcome s' r =
        ((s' ≡ s) × (r ≢ ok (published_result request_id)))
        ⊎ ((c : NpcCommand) × IsEntitled tables d call c
            × ((m : Message) × (command_message codec texts uuid most disk request_id clock c
                  ≡ ok m)
                × ((b : B) × IsNewFile m request_id b s
                    × (s' ≡ (put_files codec texts uuid most disk "commands" request_id b true s).1)
                    × (r
                        ≡ ok (
                            if is_some disk
                            then failed_result os_error
                            else published_result request_id)))))

    deliver-Outcome :
        (o : Option DriverResult)
        → (request_id == "") ≡ false
        → refusal tables d call a ≡ o
        → let (r, s') =
            deliver codec texts uuid most disk request_id
              (command_message codec texts uuid most disk request_id clock
                (command tables request_id d call a))
              o
              s in
          Outcome s' r
    unfolding deliver Outcome accepted_of
    deliver-Outcome (some r) full e =
        inl (refl, not_published request_id (ok r) (refusal-refuses tables d call a r e))
    deliver-Outcome none full e =
        let c = command tables request_id d call a in
        elim (send-Sends request_id (command_message codec texts uuid most disk request_id clock c)
          s full) [
            | inl h ↦ inl h
            | inr (m, made, wrote) ↦
                inr (c, command-IsEntitled tables request_id d call a e, (m, made, wrote))
          ]

    -- One call of NpcBodyDriver.execute, with an id that is not empty: it leaves the bridge as it was and
    -- does not report that id as published; or it writes the file of one command, under a stem that
    -- no file had, with the bytes of the message of that command, whose action passed the gate, for
    -- the selected Goblin with a ready engine, with a valid token where one is needed and offline only
    -- for an offline task. Then it reports the id as published if the disk does not fail, and a
    -- failure if it does, although the first of the command's files may be there.
    pub execute-IsEntitled :
        (request_id == "") ≡ false
        → let (r, s') = execute codec texts uuid most disk tables request_id clock d call a s in
          Outcome s' r
    unfolding execute
    execute-IsEntitled full = deliver-Outcome (refusal tables d call a) full refl

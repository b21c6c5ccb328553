-- ===== src/Listener/Instruction.antt =====
-- What the listener does with an event: `dsyncInstructionForEvent`, `instructionFrom` and
-- `applyFromModeFallback` of workers/native/listener.ts.
use scim_bridge.Base.{
  ℕ, String, Bool, false, Option, none, some, List, [], ◌∷◌, ◌||◌, ◌==◌, string_eq, find,
  if◌then◌else◌,
}
use scim_bridge.Base.Effects.{pure, ◌>>=◌}
use scim_bridge.Base.Result.{ok}
use scim_bridge.Types.{Mode, passthrough, dual_write, workos_primary, workos_only, Directory}
use scim_bridge.Json.{Fields}
use scim_bridge.Listener.{Rows, Outer, Outside, DirectoryStatus}
use scim_bridge.Listener.Reading.{◌<|>◌, nonempty, text_at}

-- `DsyncInstruction`
pub record Instruction : Type 0 where
  pub apply : Bool
  pub mode : Option String
  pub directory_id : Option String

abbrev pub mode_name : Mode → String
mode_name passthrough = "passthrough"
mode_name dual_write = "dual-write"
mode_name workos_primary = "workos-primary"
mode_name workos_only = "workos-only"

-- `applyFromModeFallback`
abbrev pub apply_from_mode_fallback : String → Bool
apply_from_mode_fallback mode = mode == "workos-only"

abbrev pub or_fallback : Bool → Option Bool → Bool
or_fallback fallback none = fallback
or_fallback fallback (some b) = b

-- `instructionFrom`
unfoldable pub instruction_from : Directory → Option DirectoryStatus → Instruction
instruction_from directory none = record {
  apply = apply_from_mode_fallback (mode_name directory.mode);
  mode = some (mode_name directory.mode);
  directory_id = some directory.id;
}
instruction_from directory (some status) = record {
  apply = or_fallback (apply_from_mode_fallback status.mode) status.apply_dsync_events;
  mode = some status.mode;
  directory_id = some directory.id;
}

abbrev is_linked_to : String → Option String → Bool
is_linked_to id none = false
is_linked_to id (some linked) = linked == id

abbrev by_id : Option String → List Directory → Option Directory
by_id none directories = none
by_id (some id) directories =
    find (λ d. d.id == id || is_linked_to id d.workos_directory_id) directories

abbrev unlinked_lone : List Directory → Option Directory
unlinked_lone (d ∷ []) = elim (nonempty d.workos_directory_id) [ none ↦ some d | some _ ↦ none ]
unlinked_lone _ = none

-- The directory that an event belongs to.
unfoldable pub directory_of_event : List Directory → Fields → Option Directory
unfolding text_at
directory_of_event directories event =
    by_id (text_at "directory_id" event) directories <|> unlinked_lone directories

module _ {W : Type 0} (o : Outside W) (rows : Rows) where
  -- The second, confirmed answer is asked for only where the first says to stay inert.
  unfoldable pub confirmed_instruction : ℕ → Directory → Outer W Instruction
  unfolding instruction_from
  confirmed_instruction arrived_at directory = do
    status ← o.fetch_directory_status rows directory none
    let instruction = instruction_from directory status
    if instruction.apply then pure instruction else (do
      confirmed ← o.fetch_directory_status rows directory (some arrived_at)
      pure (instruction_from directory confirmed))

  -- `dsyncInstructionForEvent`
  unfoldable pub dsync_instruction_for_event : Fields → Outer W Instruction
  unfolding confirmed_instruction directory_of_event
  dsync_instruction_for_event event = do
    arrived_at ← (λ w. let r = o.date_now w in (ok r.0, r.1))
    elim (directory_of_event rows.directories event) [
      | none ↦ pure (record { apply = false; mode = none; directory_id = none })
      | some directory ↦ confirmed_instruction arrived_at directory
    ]

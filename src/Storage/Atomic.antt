-- ===== src/Storage/Atomic.antt =====
-- `_stage_file`, `_restore_previous_after_failed_sync` and `_atomic_write` of container.py.
use decent_wallet.Identity.Envelope.Operations.{has_value}
use decent_wallet.Prelude.{
  Bool, Option, Result, err, false, if◌then◌else◌, list_eq, nat_eq, none, not, ok, option_eq,
  pair_eq, some, true, ℕ, ◌!=◌, ◌&&◌, ◌==◌, ◌||◌,
}
use decent_wallet.Python.Value.{Bytes}

-- The target of a write: its identity (device and inode) and its bytes.
pub record File : Type 0 where
  pub identity : ℕ
  pub content : Bytes

abbrev pub Target : Type 0
Target = Option File

-- `path.read_bytes()`, with `None` for `FileNotFoundError`.
abbrev pub content_of : Target → Option Bytes
content_of none = none
content_of (some f) = some f.content

-- What goes wrong in one write: `true` is an `OSError` of that call.
pub record Faults : Type 0 where
  -- reading the previous bytes
  pub read_previous : Bool
  -- creating, writing or syncing the temporary file
  pub stage : Bool
  -- `os.replace` or `os.link`
  pub install : Bool
  -- unlinking the temporary name after `os.link`
  pub unlink_staged : Bool
  -- unlinking the target again after that
  pub roll_back : Bool
  pub sync : Bool
  pub inspect : Bool
  -- unlinking or replacing the installed file
  pub restore : Bool
  -- a `FileNotFoundError` while the previous bytes are staged again
  pub restore_missing : Bool
  pub read_back : Bool
  pub sync_again : Bool
  pub read_again : Bool

pub data StorageError : Type 0 where
  failure outcome_unknown : StorageError

-- `fresh` is the identity of the staged file. With `replace` the target is exchanged in one step;
-- without it, `os.link` refuses an existing target, and a target that was linked is unlinked again
-- if the temporary name cannot be removed.
unfoldable pub stage_file : Faults → Bool → ℕ → Bytes → Target → Option ℕ × Target
stage_file f true fresh new t =
    if f.stage || f.install
    then (none, t)
    else (some fresh, some (record { identity = fresh; content = new }))
stage_file f false fresh new (some file) = (none, some file)
stage_file f false fresh new none =
    if f.stage || f.install
    then (none, none)
    else if f.unlink_staged
    then (none, if f.roll_back then some (record { identity = fresh; content = new }) else none)
    else (some fresh, some (record { identity = fresh; content = new }))

-- The last two reads, with a directory sync between them.
unfoldable pub confirm_previous : Faults → Option Bytes → Target → Bool
confirm_previous f previous t =
    not f.read_back
    && content_of t == previous
    && not f.sync_again
    && not f.read_again
    && content_of t == previous

-- Undoing the installed file: unlink it if there was none before, else stage the previous bytes again,
-- as the file `again`. A failure is found out by the reads that follow.
abbrev pub put_back : Faults → ℕ → Option Bytes → Target → Target
put_back f again none t = if f.restore then t else none
put_back f again (some previous) t =
    if f.restore then t else some (record { identity = again; content = previous })

unfoldable pub restore_previous : Faults → ℕ → Option Bytes → ℕ → Target → Bool × Target
restore_previous f again previous installed none =
    if f.inspect || has_value previous
    then (false, none)
    else (confirm_previous f previous none, none)
restore_previous f again previous installed (some file) =
    if f.inspect || file.identity != installed || has_value previous && f.restore_missing
    then (false, some file)
    else (let t = put_back f again previous (some file) in (confirm_previous f previous t, t))

-- What is compared to know whether a failed sync was undone; `None` if the write does not replace.
abbrev pub previous_data : Bool → Target → Option Bytes
previous_data true t = content_of t
previous_data false t = none

-- What another process does to the target between the installation and a failed sync.
abbrev pub Meddling : Type 0
Meddling = Target → Target

unfoldable pub after_stage :
    Faults
    → Meddling
    → ℕ
    → Option Bytes
    → Option ℕ × Target
    → Result StorageError (Unit {0}) × Target
after_stage f meddle again previous (none, t) = (err failure, t)
after_stage f meddle again previous (some installed, t) =
    if f.sync
    then (let (undone, t') = restore_previous f again previous installed (meddle t) in
        (err (if undone then failure else outcome_unknown), t'))
    else (ok tt, t)

unfoldable pub atomic_write :
    Faults → Meddling → ℕ → ℕ → Bool → Bytes → Target → Result StorageError (Unit {0}) × Target
unfolding after_stage
atomic_write f meddle fresh again replace new t =
    if replace && has_value t && f.read_previous
    then (err failure, t)
    else after_stage f meddle again (previous_data replace t) (stage_file f replace fresh new t)

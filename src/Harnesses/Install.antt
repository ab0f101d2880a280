-- ===== src/Harnesses/Install.antt =====
-- internal/harnesses/apply.go and uninstall.go, over the files that there are. A failing call changes
-- no file. Directories are not modelled: `MkdirAll` may fail, and `pruneEmptyDirs` touches no file.
pub mod Uninstall
pub mod Step
pub mod Restore
pub mod Existing
use mure.Base.{
  ℕ, Bool, true, false, not, List, [], ◌∷◌, ◌++◌, Option, none, some, Bytes, codes, equal, is_empty,
  if◌then◌else◌,
}
use mure.Base.Dict.{lookup, insert, delete}
use mure.Harnesses.Markers.{replace_or_append_block, strip_block}

abbrev pub Files : Type 0
Files = List (Bytes × Bytes)

-- Which calls fail, for reasons other than that the file is not there.
pub record Faults : Type 0 where
  pub mkdir_fails : Bytes → Bool
  pub stat_fails : Bytes → Bool
  pub read_fails : Bytes → Bool
  pub write_fails : Bytes → Bool
  pub remove_fails : Bytes → Bool

pub record FileOp : Type 0 where
  pub dst : Bytes
  pub mode : ℕ
  pub content : Bytes
  pub merge : Bytes

pub record FileReceipt : Type 0 where
  pub dst : Bytes
  pub mode : ℕ
  pub sha : Bytes
  pub merge : Bytes

pub record Receipt : Type 0 where
  pub harness : Bytes
  pub files : List FileReceipt

-- The cases of both switches.
pub data Merge : Type 0 where
  create_if_missing append replace unknown : Merge

unfoldable pub merge_of : Bytes → Merge
merge_of s =
    if equal s (codes "create-if-missing")
    then create_if_missing
    else if equal s (codes "append")
    then append
    else if equal s (codes "replace")
    then replace
    else unknown

unfoldable pub merge_or_replace : Bytes → Bytes
merge_or_replace s = if is_empty s then codes "replace" else s

-- `os.ReadFile`.
pub data Read : Type 0 where
  contents : Bytes → Read
  absent fails : Read

abbrev pub found : Option Bytes → Read
found none = absent
found (some b) = contents b

unfoldable pub read_file : Faults → Bytes → Files → Read
read_file f p d = if f.read_fails p then fails else found (lookup p d)

-- What an operation or a receipt's file leads to: an error or not, and the files.
abbrev pub write_file : Faults → Bytes → Bytes → Files → Bool × Files
write_file f p b d = if f.write_fails p then (false, d) else (true, insert p b d)

-- `Apply` for one operation: the bytes that its receipt hashes, or an error.
abbrev pub written : Bytes → Bool × Files → Option Bytes × Files
written b (true, d) = (some b, d)
written b (false, d) = (none, d)

abbrev pub read_or_empty : Read → Bytes
read_or_empty (contents b) = b
read_or_empty _ = []

abbrev pub write_new : Faults → FileOp → Files → Option Bytes × Files
write_new f op d = written op.content (write_file f op.dst op.content d)

-- `create-if-missing`, on what `Stat` finds.
abbrev pub create_missing : Faults → FileOp → Files → Option Bytes → Option Bytes × Files
create_missing f op d (some b) = (some (read_or_empty (read_file f op.dst d)), d)
create_missing f op d none = write_new f op d

-- `append`, on what `readIfExists` reads.
abbrev pub append_to : Faults → Bytes → FileOp → Files → Bytes → Option Bytes × Files
append_to f h op d existing =
    let updated = replace_or_append_block existing h op.content in
    written updated (write_file f op.dst updated d)

abbrev pub append_block : Faults → Bytes → FileOp → Files → Read → Option Bytes × Files
append_block f h op d (contents b) = append_to f h op d b
append_block f h op d absent = append_to f h op d []
append_block f h op d fails = (none, d)

unfoldable pub merge_op : Faults → Bytes → FileOp → Files → Merge → Option Bytes × Files
unfolding read_file
merge_op f h op d create_if_missing =
    if f.stat_fails op.dst then (none, d) else create_missing f op d (lookup op.dst d)
merge_op f h op d append = append_block f h op d (read_file f op.dst d)
merge_op f h op d replace = write_new f op d
merge_op f h op d unknown = (none, d)

unfoldable pub apply_op : Faults → Bytes → FileOp → Files → Option Bytes × Files
unfolding merge_op merge_of merge_or_replace
apply_op f h op d =
    if f.mkdir_fails op.dst
    then (none, d)
    else merge_op f h op d (merge_of (merge_or_replace op.merge))

-- `sum` is the hash in hexadecimal.
abbrev pub receipt_of : (Bytes → Bytes) → FileOp → Bytes → FileReceipt
receipt_of sum op b = record {
  dst = op.dst;
  mode = op.mode;
  sha = sum b;
  merge = merge_or_replace op.merge;
}

-- The receipts so far, whether `Apply` returns no error, and the files.
pub record Applied : Type 0 where
  pub receipts : List FileReceipt
  pub succeeds : Bool
  pub files : Files

abbrev pub add_receipt : FileReceipt → Applied → Applied
add_receipt r a = record a { receipts = r ∷ a.receipts }

unfoldable pub apply : Faults → (Bytes → Bytes) → Bytes → List FileOp → Files → Applied
unfolding apply_op
apply f sum h [] d = record { receipts = []; succeeds = true; files = d }
apply f sum h (op ∷ ops) d =
    let (r, e) = apply_op f h op d in
    let later = apply f sum h ops e in
    elim r [
      | none ↦ record { receipts = []; succeeds = false; files = e }
      | some b ↦ add_receipt (receipt_of sum op b) later
    ]

-- `Uninstall` for one file: whether there is no warning, and the files.
abbrev pub remove_file : Faults → Bytes → Files → Bool × Files
remove_file f p d = if f.remove_fails p then (false, d) else (true, delete p d)

abbrev pub take_back : Faults → FileReceipt → Files → Bytes → Bool × Files
take_back f r d updated =
    if is_empty updated then remove_file f r.dst d else write_file f r.dst updated d

abbrev pub strip_file : Faults → Bytes → FileReceipt → Files → Read → Bool × Files
strip_file f h r d (contents b) = take_back f r d (strip_block b h)
strip_file f h r d absent = (true, d)
strip_file f h r d fails = (false, d)

abbrev pub remove_own : Faults → (Bytes → Bytes) → FileReceipt → Files → Read → Bool × Files
remove_own f sum r d (contents b) =
    if not (equal (sum b) r.sha) then (false, d) else remove_file f r.dst d
remove_own f sum r d absent = (true, d)
remove_own f sum r d fails = (false, d)

unfoldable pub unmerge :
    Faults → (Bytes → Bytes) → Bytes → FileReceipt → Files → Merge → Bool × Files
unfolding read_file
unmerge f sum h r d append = strip_file f h r d (read_file f r.dst d)
unmerge f sum h r d create_if_missing = remove_own f sum r d (read_file f r.dst d)
unmerge f sum h r d replace = remove_own f sum r d (read_file f r.dst d)
unmerge f sum h r d unknown = (true, d)

unfoldable pub uninstall_file :
    Faults → (Bytes → Bytes) → Bytes → FileReceipt → Files → Bool × Files
unfolding unmerge merge_of
uninstall_file f sum h r d = unmerge f sum h r d (merge_of r.merge)

-- `Uninstall` over the receipt's files: the paths that it warns about, and the files.
unfoldable pub uninstall_files :
    Faults → (Bytes → Bytes) → Bytes → List FileReceipt → Files → List Bytes × Files
unfolding uninstall_file
uninstall_files f sum h [] d = ([], d)
uninstall_files f sum h (r ∷ rs) d =
    let (quiet, e) = uninstall_file f sum h r d in
    let (warns, g) = uninstall_files f sum h rs e in ((if quiet then warns else r.dst ∷ warns), g)

unfoldable pub uninstall : Faults → (Bytes → Bytes) → Receipt → Files → List Bytes × Files
unfolding uninstall_files
uninstall f sum r d = uninstall_files f sum r.harness r.files d

-- ===== src/PodMapping.antt =====
-- capture/src/pod_mapping.c: the table of pods and their nodes, read from a file. Messages printed on
-- the way are left out.
pub mod File
pub mod Lookup
pub mod Print
pub mod Rows
mod Tests
use tlshub_ebpf.Base.{
  ℕ, zero, suc, Bool, true, false, ◌||◌, ◌&&◌, Option, none, some, List, [], ◌∷◌, ◌++◌, Bytes, ◌==◌,
  ltb, leb, if◌then◌else◌, length, take, str_eq,
}
use tlshub_ebpf.Stdio.{lines, c_string, Scanned, nothing, one, two, scan_pair}

-- `MAX_MAPPINGS`, `MAX_POD_NAME` and `MAX_NODE_NAME`
abbrev pub max_mappings : ℕ
max_mappings = 1024

abbrev pub max_name : ℕ
max_name = 256

-- `struct pod_node_mapping`; the names are the strings in the two buffers.
pub record PodNodeMapping : Type 0 where
  pub pod_name : Bytes
  pub node_name : Bytes

-- `struct pod_node_table`: its first `count` entries.
abbrev pub PodNodeTable : Type 0
PodNodeTable = List PodNodeMapping

-- How the reading of the file goes on or ends. `sscanf` stores words of any length: one of 256 bytes or
-- more overruns its buffer, and from there on the program's behaviour is undefined.
pub data Load : Type 0 where
  overrun : Load
  null : Load
  loaded : PodNodeTable → Load

-- `line[0] == '\n' || line[0] == '#'`
unfoldable pub is_skipped : Bytes → Bool
is_skipped [] = false
is_skipped (c ∷ cs) = c == b'\n' || c == b'#'

-- Does a stored word overrun a buffer of `n` bytes? The final zero takes one of them.
unfoldable pub overruns : ℕ → Bytes → Bool
overruns n w = leb n (length w)

-- The body of the loop: the entry that a line adds, if any; the outer `none` is an overrun.
unfoldable pub scan_mapping : Scanned → Option (Option PodNodeMapping)
unfolding overruns
scan_mapping nothing = some none
scan_mapping (one w) = if overruns max_name w then none else some none
scan_mapping (two w v) =
    if overruns max_name w || overruns max_name v
    then none
    else some (some (record { pod_name = take 255 w; node_name = take 255 v }))

unfoldable pub read_mapping : Bytes → Option (Option PodNodeMapping)
unfolding is_skipped scan_mapping
read_mapping line = if is_skipped line then some none else scan_mapping (scan_pair (c_string line))

-- `table->mappings[table->count] = …; table->count++`
abbrev pub add : PodNodeTable → Option PodNodeMapping → PodNodeTable
add t none = t
add t (some m) = t ++ m ∷ []

-- `while (fgets(…) != NULL && table->count < MAX_MAPPINGS)`
unfoldable pub load_lines : PodNodeTable → List Bytes → Load
load_lines t [] = loaded t
load_lines t (line ∷ ls) = elim (ltb (length t) max_mappings) [
  | false ↦ loaded t
  | true ↦ elim (read_mapping line) [ none ↦ overrun | some m ↦ load_lines (add t m) ls ]
]

-- `init_pod_node_mapping(config_file)`: whether `malloc` granted the table, and the bytes of the file
-- if it could be opened.
unfoldable pub init_pod_node_mapping : Bool → Option Bytes → Load
init_pod_node_mapping false file = null
init_pod_node_mapping true none = null
init_pod_node_mapping true (some bytes) = load_lines [] (lines bytes)

-- The loop of `get_node_by_pod`.
unfoldable pub find_node : PodNodeTable → Bytes → Option Bytes
find_node [] pod = none
find_node (m ∷ ms) pod = if str_eq m.pod_name pod then some m.node_name else find_node ms pod

-- `get_node_by_pod(table, pod_name)`; null pointers are `none`.
unfoldable pub get_node_by_pod : Option PodNodeTable → Option Bytes → Option Bytes
get_node_by_pod (some t) (some pod) = find_node t pod
get_node_by_pod t pod = none

-- ===== src/PodMapping/Print.antt =====
-- `print_pod_node_mapping` and `free_pod_node_mapping` of capture/src/pod_mapping.c. A text printed is the list
-- of its lines.
use tlshub_ebpf.Base.{
  ℕ, zero, suc, ◌+◌, ◌-◌, ◌/◌, ◌%◌, Option, none, some, List, [], ◌∷◌, ◌++◌, map, Bytes, ltb,
  if◌then◌else◌, length, replicate, codes,
}
use tlshub_ebpf.PodMapping.{PodNodeMapping, PodNodeTable}

-- `%d` of a number that is not negative, with fuel for its digits.
unfoldable pub decimal_in : ℕ → ℕ → Bytes
decimal_in zero n = []
decimal_in (suc fuel) n =
    let higher = decimal_in fuel (n / 10) in
    if ltb n 10 then (b'0' + n) ∷ [] else higher ++ ((b'0' + n % 10) ∷ [])

unfoldable pub decimal : ℕ → Bytes
unfolding decimal_in
decimal n = decimal_in (suc n) n

-- `%-30s`
unfoldable pub column : Bytes → Bytes
column s = s ++ replicate (30 - length s) b' '

-- `"%-30s %-30s\n"`
unfoldable pub print_columns : Bytes → Bytes → Bytes
unfolding column
print_columns a b = column a ++ (b' ' ∷ (column b ++ (b'\n' ∷ [])))

unfoldable pub print_mapping : PodNodeMapping → Bytes
unfolding print_columns
print_mapping m = print_columns m.pod_name m.node_name

-- `print_pod_node_mapping(table)`
unfoldable pub print_pod_node_mapping : Option PodNodeTable → List Bytes
unfolding decimal print_columns print_mapping
print_pod_node_mapping none = (codes "Pod-Node mapping table is NULL" ++ (b'\n' ∷ [])) ∷ []
print_pod_node_mapping (some t) =
    (codes "Pod-Node Mapping Table ("
      ++ (decimal (length t) ++ (codes " entries):" ++ (b'\n' ∷ []))))
    ∷ (print_columns (codes "Pod Name") (codes "Node Name")
        ∷ ((replicate 60 b'-' ++ (b'\n' ∷ [])) ∷ map print_mapping t))

-- `free_pod_node_mapping(table)`, with the `free` of the system.
unfoldable pub free_pod_node_mapping : {W : Type 0} → (W → W) → Option PodNodeTable → W → W
free_pod_node_mapping free none w = w
free_pod_node_mapping free (some t) w = free w

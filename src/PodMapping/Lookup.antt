-- ===== src/PodMapping/Lookup.antt =====
-- `get_node_by_pod` of capture/src/pod_mapping.c and the entries of the table.
use tlshub_ebpf.Base.{
  ◌≡◌, ◌≢◌, refl, ap, ◌⊎◌, inl, inr, Bool-cases, none, some, [], ◌∷◌, ◌++◌, Bytes, str_eq,
  str_eq_iff,
}
use tlshub_ebpf.PodMapping.{PodNodeTable, find_node, get_node_by_pod}
use tlshub_ebpf.PodMapping.File.{All}

-- No entry is for this pod.
abbrev pub Lacks : Bytes → PodNodeTable → Type 0
Lacks pod = All (λ m. m.pod_name ≢ pod)

-- The entry of a pod, with no entry for it before.
pub record IsFirst (pod node : Bytes) (t : PodNodeTable) : Type 0 where
  pub before : PodNodeTable
  pub after : PodNodeTable
  pub splits : t ≡ before ++ record { pod_name = pod; node_name = node } ∷ after
  pub lacks : Lacks pod before

-- A lookup gives the node of the first entry for the pod, or nothing when the table has no entry for it.
pub get_node_by_pod_lem :
    (t : PodNodeTable) (pod : Bytes)
    → ((node : Bytes) × (get_node_by_pod (some t) (some pod) ≡ some node) × IsFirst pod node t)
      ⊎ ((get_node_by_pod (some t) (some pod) ≡ none) × Lacks pod t)
unfolding get_node_by_pod find_node
get_node_by_pod_lem [] pod = inr (refl, tt)
get_node_by_pod_lem (m ∷ ms) pod = elim (Bool-cases (str_eq m.pod_name pod)) [
  | inl hit ↦
      let same = (str_eq_iff m.pod_name pod).0 hit in
      inl (
        m.node_name,
        rw hit,
        record {
          before = [];
          after = ms;
          splits = ap (λ p. record { pod_name = p; node_name = m.node_name } ∷ ms) same;
          lacks = tt;
        },
      )
  | inr miss ↦
      let other : m.pod_name ≢ pod = λ e. cc ((str_eq_iff m.pod_name pod).1 e) in
      elim (get_node_by_pod_lem ms pod) [
        | inl (node, found, f) ↦ inl (
          node,
          rw miss found,
          record {
            before = m ∷ f.before;
            after = f.after;
            splits = ap (◌∷◌ m) f.splits;
            lacks = (other, f.lacks);
          },
        )
        | inr (gone, lacks) ↦ inr (rw miss gone, (other, lacks))
      ]
]

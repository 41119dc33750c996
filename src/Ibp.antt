-- ===== src/Ibp.antt =====
-- include/IBPAvailabilityInformation.hpp, with include/ScalarParameter.hpp, include/Interval.hpp and purge() of
-- include/ClusteringList.hpp: what a branch of idle nodes tells of itself under the policy IBP. The numbers are
-- 32-bit words; a memory or a disk of 2 ^ 31 or more is compared as a word, as the code does with the
-- unsigned requirements of a task.
pub mod Routing
pub mod Division
pub mod Sharing
pub mod Node
use stars.Prelude.{
  ℕ, ◌+◌, ◌-◌, ◌*◌, ◌%◌, ◌≡◌, refl, Bool, true, false, not, ◌&&◌, List, [], ◌∷◌, ◌++◌, keep_if, ltb,
  leb, ◌==◌, if◌then◌else◌, u32,
}
use stars.Scheduler.Interface.{TaskDescription}
use stars.Dispatcher.Interface.{Info}

-- ScalarParameter; the errors of an aggregation are kept for the clustering.
pub record ScalarParameter : Type 0 where
  pub parameter : ℕ
  pub mse : ℕ
  pub linear_term : ℕ

abbrev pub scalar : ℕ → ScalarParameter
scalar p = record { parameter = p; mse = 0; linear_term = 0 }

abbrev pub same_scalar : ScalarParameter → ScalarParameter → Bool
same_scalar l r = l.parameter == r.parameter && l.mse == r.mse && l.linear_term == r.linear_term

-- Interval
pub record Interval : Type 0 where
  pub min : ℕ
  pub max : ℕ

abbrev pub set_limits : ℕ → Interval
set_limits v = record { min = v; max = v }

-- The ends are int32_t in the code and natural numbers here: the amounts of memory and disk are below 2 ^ 31.
unfoldable pub extend : Interval → Interval → Interval
extend i r = record {
  min = if ltb r.min i.min then r.min else i.min;
  max = if ltb i.max r.max then r.max else i.max;
}

-- MDCluster
pub record MdCluster : Type 0 where
  pub value : ℕ
  pub min_m : ScalarParameter
  pub min_d : ScalarParameter

abbrev pub new_cluster : ℕ → ℕ → MdCluster
new_cluster m d = record { value = 1; min_m = scalar m; min_d = scalar d }

abbrev pub same_cluster : MdCluster → MdCluster → Bool
same_cluster l r = same_scalar l.min_m r.min_m && same_scalar l.min_d r.min_d && l.value == r.value

abbrev pub fulfills : TaskDescription → MdCluster → Bool
fulfills req c = leb req.max_memory c.min_m.parameter && leb req.max_disk c.min_d.parameter

-- getRemainingMemory() and getRemainingDisk(), as a word.
abbrev pub remaining : ScalarParameter → ℕ → ℕ
remaining p v = (p.parameter + u32 - v) % u32

-- takeUpToNodes(): the cluster after it, and the nodes that it does not have.
abbrev pub take_up_to_nodes : ℕ → MdCluster → MdCluster × ℕ
take_up_to_nodes nodes c =
    if ltb c.value nodes
    then (record c { value = 0 }, nodes - c.value)
    else (record c { value = c.value - nodes }, 0)

-- purge()
abbrev pub purge : List MdCluster → List MdCluster
purge cs = keep_if (λ c. not (c.value == 0)) cs

-- IBPAvailabilityInformation
pub record IbpInfo : Type 0 where
  pub sequence_number : ℕ
  pub is_from_sch : Bool
  pub summary : List MdCluster
  pub memory_range : Interval
  pub disk_range : Interval

-- IBPAvailabilityInformation()
abbrev pub no_nodes : IbpInfo
no_nodes = record {
  sequence_number = 0;
  is_from_sch = true;
  summary = [];
  memory_range = set_limits 0;
  disk_range = set_limits 0;
}

abbrev pub add_node : ℕ → ℕ → IbpInfo → IbpInfo
add_node mem disk i = elim i.summary [
  | [] ↦ record i {
    summary = new_cluster mem disk ∷ [];
    memory_range = set_limits mem;
    disk_range = set_limits disk;
  }
  | c ∷ cs ↦ record i {
    summary = (c ∷ cs) ++ new_cluster mem disk ∷ [];
    memory_range = extend i.memory_range (set_limits mem);
    disk_range = extend i.disk_range (set_limits disk);
  }
]

abbrev pub join_summary : IbpInfo → IbpInfo → List MdCluster → IbpInfo
join_summary i r [] = record i {
  memory_range = r.memory_range;
  disk_range = r.disk_range;
  summary = r.summary;
}
join_summary i r (c ∷ cs) = record i {
  memory_range = extend i.memory_range r.memory_range;
  disk_range = extend i.disk_range r.disk_range;
  summary = (c ∷ cs) ++ r.summary;
}

-- join()
unfoldable pub join : IbpInfo → IbpInfo → IbpInfo
join i r = elim r.summary [ [] ↦ i | c ∷ cs ↦ join_summary i r i.summary ]

unfoldable pub same_summary : List MdCluster → List MdCluster → Bool
same_summary [] [] = true
same_summary [] (d ∷ ds) = false
same_summary (c ∷ cs) [] = false
same_summary (c ∷ cs) (d ∷ ds) = same_cluster c d && same_summary cs ds

-- updated()
abbrev pub updated : IbpInfo → IbpInfo
updated i = record i { summary = purge i.summary }

-- The class as the argument of Dispatcher. How cluster() joins clusters, in reduce(), and the bytes of
-- the message are parameters.
unfoldable pub ibp_info : (IbpInfo → List MdCluster) → (IbpInfo → ℕ) → Info IbpInfo
ibp_info cluster size = record {
  seq = λ i. i.sequence_number;
  set_seq = λ n i. record i { sequence_number = n };
  from_sch = λ i. i.is_from_sch;
  set_from_sch = λ f i. record i { is_from_sch = f };
  join = join;
  reduce = λ i. record i { summary = cluster i };
  same = λ l r. same_summary l.summary r.summary;
  size = size;
  seq-set_seq = λ n i. refl;
  seq-set_from_sch = λ f i. refl;
  seq-reduce = λ i. refl;
}

-- ===== src/Cluster/Memory.antt =====
-- A cluster that holds its secrets in a map, for tests. A write to the namespace `broken` fails.
use jfrog_registry_operator.Base.{
  Text, str, eqb, eqb_iff, List, [], ◌∷◌, Option, none, some, true, false, ◌&&◌, Done, GoError, api,
  ok, err, ◌≡◌, if◌then◌else◌, arith,
}
use jfrog_registry_operator.Base.Exec.{Exec}
use jfrog_registry_operator.Cluster.Secrets.{Secret, SecretStore, IsLawful}

abbrev pub Memory : Type 0
Memory = List Secret

unfoldable pub find : Text → Text → Memory → Option Secret
find ns name [] = none
find ns name (x ∷ xs) = if eqb x.namespace ns && eqb x.name name then some x else find ns name xs

unfoldable pub remove : Text → Text → Memory → Memory
remove ns name [] = []
remove ns name (x ∷ xs) =
    let rest = remove ns name xs in if eqb x.namespace ns && eqb x.name name then rest else x ∷ rest

unfoldable pub not_found : GoError
not_found = api true (str "not found")

fetch : Text → Text → Exec Memory Secret
unfolding find not_found
fetch ns name s = elim (find ns name s) [ none ↦ (err not_found, s) | some x ↦ (ok x, s) ]

put : Secret → Exec Memory Done
unfolding remove
put x s =
    if eqb x.namespace (str "broken")
    then (err (api false (str "write refused")), s)
    else (ok tt, x ∷ remove x.namespace x.name s)

replace : Secret → Exec Memory Done
unfolding put
replace x s = elim (find x.namespace x.name s) [ none ↦ (err not_found, s) | some _ ↦ put x s ]

discard : Text → Text → Exec Memory Done
unfolding remove
discard ns name s = elim (find ns name s) [
  | none ↦ (err not_found, s)
  | some _ ↦ (ok tt, remove ns name s)
]

unfoldable pub memory : SecretStore Memory
unfolding fetch put replace discard
memory = record { stored = find; get = fetch; update = replace; create = put; delete = discard }

find-remove :
    (ns name j k : Text) (s : Memory)
    → find j k (remove ns name s) ≡ (if eqb j ns && eqb k name then none else find j k s)
unfolding find remove
find-remove ns name j k [] = ground arith
find-remove ns name j k (x ∷ xs) = ground (
  arith,
  find-remove ns name j k xs,
  eqb_iff x.namespace ns,
  eqb_iff x.name name,
  eqb_iff x.namespace j,
  eqb_iff x.name k,
  eqb_iff j ns,
  eqb_iff k name,
)

find-named :
    (ns name : Text) (s : Memory) (x : Secret)
    → find ns name s ≡ some x
    → (x.namespace ≡ ns) × (x.name ≡ name)
unfolding find
find-named ns name [] x h = cc
find-named ns name (y ∷ s) x h =
    ground (arith, eqb_iff y.namespace ns, eqb_iff y.name name, find-named ns name s x)

pub memory-IsLawful : IsLawful memory
unfolding memory
memory-IsLawful = record {
  stored-get = λ ns name j k s. ground arith;
  get-ok = λ ns name s x h. ground arith;
  get-named = λ ns name s x h. ground (arith, find-named ns name s x);
  get-missing = λ ns name s e h m. ground arith;
  stored-update_ok =
      λ x s h. ground (arith, eqb_iff x.namespace x.namespace, eqb_iff x.name x.name);
  stored-update_other = λ x j k s h. ground (
    arith,
    find-remove x.namespace x.name j k s,
    eqb_iff x.namespace j,
    eqb_iff x.name k,
    eqb_iff j x.namespace,
    eqb_iff k x.name,
  );
  stored-create_ok =
      λ x s h. ground (arith, eqb_iff x.namespace x.namespace, eqb_iff x.name x.name);
  stored-create_other = λ x j k s h. ground (
    arith,
    find-remove x.namespace x.name j k s,
    eqb_iff x.namespace j,
    eqb_iff x.name k,
    eqb_iff j x.namespace,
    eqb_iff k x.name,
  );
  stored-delete_ok = λ ns name s h.
      ground (arith, find-remove ns name ns name s, eqb_iff ns ns, eqb_iff name name);
  stored-delete_other =
      λ ns name j k s h. ground (arith, find-remove ns name j k s, eqb_iff j ns, eqb_iff k name);
  delete-missing = λ ns name s e h m. ground arith;
  stored-delete_fails = λ ns name j k s h. ground arith;
  stored-update_fails = λ x j k s h. ground arith;
  stored-create_fails = λ x j k s h. ground arith;
}

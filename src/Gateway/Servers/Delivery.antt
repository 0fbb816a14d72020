-- ===== src/Gateway/Servers/Delivery.antt =====
-- Which servers are live and which are Byzantine once the calls before a set have arrived.
use pbft_2pc.Prelude.{
  contains-select, ◌∙◌, String, string_eq, Bool, true, false, not, List, [], ◌∷◌, ◌++◌, map, select,
  contains, ◌==◌, if◌then◌else◌, ok, All, ◌≡◌, refl, arith, eq_refl, Bool-cases, inl, inr, eq_iff,
}
use pbft_2pc.Deps.{Bolt}
use pbft_2pc.Node.{Node}
use pbft_2pc.Node.Service.{set_status, set_byzantine}
use pbft_2pc.Gateway.Servers.{
  ServerCall, call_all, set_live_servers, set_byzantine_servers, deliver, deliver_all,
}

call_all-map :
    (clients : List String) (make : String → ServerCall) (nodes : List String)
    → All (λ n. contains clients n ≡ true) nodes
    → call_all clients make nodes ≡ ok (map make nodes)
unfolding call_all
call_all-map clients make [] _ = refl
call_all-map clients make (n ∷ nodes) (here, later) =
    rw (here, call_all-map clients make nodes later) refl

All-select {ℓ κ} :
    {A : Type ℓ} (P : A → Type κ) (p : A → Bool) (xs : List A) → All P xs → All P (select p xs)
All-select P p [] _ = tt
All-select P p (x ∷ xs) (here, later) = elim (Bool-cases (p x)) [
  | inl passes ↦ rw passes (here, All-select P p xs later)
  | inr fails ↦ rw fails (All-select P p xs later)
]

-- The calls of the two functions.
abbrev status_calls : List String → List String → List ServerCall
status_calls live nodes =
    map (λ n. ServerCall.status n false) (select (λ n. not (contains live n)) nodes)
    ++ map (λ n. ServerCall.status n true) (select (λ n. contains live n) nodes)

abbrev byzantine_calls : List String → List String → List ServerCall
byzantine_calls names nodes =
    map (λ n. ServerCall.byzantine n false) (select (λ n. not (contains names n)) nodes)
    ++ map (λ n. ServerCall.byzantine n true) (select (λ n. not (n == "")) names)

set_live_servers-eq :
    (clients nodes live : List String)
    → All (λ n. contains clients n ≡ true) nodes
    → set_live_servers clients nodes live ≡ ok (status_calls live nodes)
unfolding set_live_servers
set_live_servers-eq clients nodes live known =
    let dead =
      call_all-map clients (λ n. ServerCall.status n false) _
        (All-select _ (λ n. not (contains live n)) nodes known) in
    let alive =
      call_all-map clients (λ n. ServerCall.status n true) _
        (All-select _ (λ n. contains live n) nodes known) in
    rw (dead, alive) refl

set_byzantine_servers-eq :
    (clients nodes names : List String)
    → All (λ n. contains clients n ≡ true) nodes
    → All (λ n. contains clients n ≡ true) (select (λ n. not (n == "")) names)
    → set_byzantine_servers clients nodes names ≡ ok (byzantine_calls names nodes)
unfolding set_byzantine_servers
set_byzantine_servers-eq clients nodes names known known' =
    let good =
      call_all-map clients (λ n. ServerCall.byzantine n false) _
        (All-select _ (λ n. not (contains names n)) nodes known) in
    let bad = call_all-map clients (λ n. ServerCall.byzantine n true) _ known' in
    rw (good, bad) refl

module _ ⦃bolt : Bolt⦄ where
  deliver_all-append :
      (calls calls' : List ServerCall) (servers : String → Node)
      → deliver_all (calls ++ calls') servers ≡ deliver_all calls' (deliver_all calls servers)
  unfolding deliver_all
  deliver_all-append [] calls' servers = refl
  deliver_all-append (c ∷ calls) calls' servers =
      deliver_all-append calls calls' (deliver c servers)

  deliver_status :
      (n : String) (b : Bool) (servers : String → Node) (x : String)
      → let after = deliver (ServerCall.status n b) servers x in
        (after.live ≡ (if x == n then b else (servers x).live))
        × (after.byzantine ≡ (servers x).byzantine)
  unfolding deliver set_status
  deliver_status n b servers x = elim (Bool-cases (n == x)) [
    | inl same ↦ (let e = (eq_iff n x).0 same in rw e (rw (eq_refl x) (refl, refl)))
    | inr other ↦ (ground (arith, other, eq_iff n x, eq_iff x n), rw other refl)
  ]

  deliver_byzantine :
      (n : String) (b : Bool) (servers : String → Node) (x : String)
      → let after = deliver (ServerCall.byzantine n b) servers x in
        (after.byzantine ≡ (if x == n then b else (servers x).byzantine))
        × (after.live ≡ (servers x).live)
  unfolding deliver set_byzantine
  deliver_byzantine n b servers x = elim (Bool-cases (n == x)) [
    | inl same ↦ (let e = (eq_iff n x).0 same in rw e (rw (eq_refl x) (refl, refl)))
    | inr other ↦ (ground (arith, other, eq_iff n x, eq_iff x n), rw other refl)
  ]

  -- The calls of one kind with one value, for some names.
  statuses :
      (b : Bool) (nodes : List String) (servers : String → Node) (x : String)
      → let after = deliver_all (map (λ n. ServerCall.status n b) nodes) servers x in
        (after.live ≡ (if contains nodes x then b else (servers x).live))
        × (after.byzantine ≡ (servers x).byzantine)
  unfolding deliver_all
  statuses b [] servers x = (refl, refl)
  statuses b (n ∷ nodes) servers x =
      let (live, byz) = statuses b nodes (deliver (ServerCall.status n b) servers) x in
      let (live1, byz1) = deliver_status n b servers x in (ground (arith, live, live1), byz ∙ byz1)

  byzantines :
      (b : Bool) (nodes : List String) (servers : String → Node) (x : String)
      → let after = deliver_all (map (λ n. ServerCall.byzantine n b) nodes) servers x in
        (after.byzantine ≡ (if contains nodes x then b else (servers x).byzantine))
        × (after.live ≡ (servers x).live)
  unfolding deliver_all
  byzantines b [] servers x = (refl, refl)
  byzantines b (n ∷ nodes) servers x =
      let (byz, live) = byzantines b nodes (deliver (ServerCall.byzantine n b) servers) x in
      let (byz1, live1) = deliver_byzantine n b servers x in
      (ground (arith, byz, byz1), live ∙ live1)

  -- First the calls with `false` for some names, then those with `true` for others.
  two_statuses :
      (fallen risen : List String) (servers : String → Node) (x : String)
      → let after =
          deliver_all
            (map (λ n. ServerCall.status n false) fallen
              ++ map (λ n. ServerCall.status n true) risen)
            servers
            x in
        (after.live ≡ (
          if contains risen x then true else if contains fallen x then false else (servers x).live))
        × (after.byzantine ≡ (servers x).byzantine)
  two_statuses fallen risen servers x =
      let calls = map (λ n. ServerCall.status n false) fallen in
      let (live, byz) = statuses false fallen servers x in
      let (live', byz') = statuses true risen (deliver_all calls servers) x in
      rw (deliver_all-append calls (map (λ n. ServerCall.status n true) risen) servers)
        (ground (arith, live, live'), byz' ∙ byz)

  two_byzantines :
      (good bad : List String) (servers : String → Node) (x : String)
      → let after =
          deliver_all
            (map (λ n. ServerCall.byzantine n false) good
              ++ map (λ n. ServerCall.byzantine n true) bad)
            servers
            x in
        (after.byzantine ≡ (
          if contains bad x
          then true
          else if contains good x
          then false
          else (servers x).byzantine))
        × (after.live ≡ (servers x).live)
  two_byzantines good bad servers x =
      let calls = map (λ n. ServerCall.byzantine n false) good in
      let (byz, live) = byzantines false good servers x in
      let (byz', live') = byzantines true bad (deliver_all calls servers) x in
      rw (deliver_all-append calls (map (λ n. ServerCall.byzantine n true) bad) servers)
        (ground (arith, byz, byz'), live' ∙ live)

  as_listed :
      (live names nodes : List String) (servers : String → Node) (x : String)
      → contains nodes x ≡ true
      → (x == "") ≡ false
      → let after =
          deliver_all
            (byzantine_calls names nodes)
            (deliver_all (status_calls live nodes) servers)
            x in
        (after.live ≡ contains live x) × (after.byzantine ≡ contains names x)
  as_listed live names nodes servers x member named =
      let servers1 = deliver_all (status_calls live nodes) servers in
      let (risen, _) =
        two_statuses (select (λ n. not (contains live n)) nodes)
          (select (λ n. contains live n) nodes) servers x in
      let (byz, kept) =
        two_byzantines (select (λ n. not (contains names n)) nodes)
          (select (λ n. not (n == "")) names) servers1 x in
      (
        ground (
          arith,
          kept,
          risen,
          member,
          contains-select (λ n. not (contains live n)) nodes x,
          contains-select (λ n. contains live n) nodes x,
        ),
        ground (
          arith,
          byz,
          member,
          named,
          contains-select (λ n. not (contains names n)) nodes x,
          contains-select (λ n. not (n == "")) names x,
        ),
      )

  -- If the gateway has a client for every server of its clusters and for every Byzantine name of the
  -- set that is not empty, then setLiveServers and setByzantineServers end, and once their calls have
  -- arrived, a server of the clusters with a name that is not empty is live exactly if the set lists
  -- it as live, and Byzantine exactly if the set lists it as Byzantine, whatever it was before.
  pub servers_as_listed :
      (clients nodes live byzantine : List String) (servers : String → Node) (x : String)
      → All (λ n. contains clients n ≡ true) nodes
      → All (λ n. contains clients n ≡ true) (select (λ n. not (n == "")) byzantine)
      → contains nodes x ≡ true
      → (x == "") ≡ false
      → (calls : List ServerCall) × (calls' : List ServerCall) × (set_live_servers clients nodes
            live
          ≡ ok calls)
        × (set_byzantine_servers clients nodes byzantine ≡ ok calls')
        × (let after = deliver_all calls' (deliver_all calls servers) x in
            (after.live ≡ contains live x) × (after.byzantine ≡ contains byzantine x))
  servers_as_listed clients nodes live byzantine servers x known known' member named = (
    status_calls live nodes,
    byzantine_calls byzantine nodes,
    set_live_servers-eq clients nodes live known,
    set_byzantine_servers-eq clients nodes byzantine known known',
    as_listed live byzantine nodes servers x member named,
  )

-- ===== src/Lookup/Answers.antt =====
-- A step of a resolver of assignments/pa6/multi-lookup.c keeps the account of the host names.
use csci_3753_operating_syst.Prelude.{
  ℕ, suc, ◌+◌, ◌-◌, ◌≤◌, ◌<◌, ◌≡◌, refl, ap, ◌∙◌, subst, inl, inr, true, false, Option, some, List,
  [], ◌∷◌, ◌++◌, arith, length, get_elem?, set, take, length-set, All,
}
use csci_3753_operating_syst.Lookup.{
  Text, Reply, waits, error, ok, is_poison, Resolver, waiting, writing, gone, Program, looked_up,
  took_host, resolver, answer,
}
use csci_3753_operating_syst.Lookup.Pool.{
  NoPill, Item, Pool, of_name, Pool-get_name, Pool-get_pill, total-pill, total-name,
}
use csci_3753_operating_syst.Lookup.Account.{
  IsFifo, alive, unsent_hosts, in_hand, IsHost, Phase-keeps, Account,
}
use csci_3753_operating_syst.Lookup.Cut.{take_all, take-poison}
use csci_3753_operating_syst.Prelude.Sums.{total, total-set, total-append}

module _ {Q : Type 0} (put : Text → Q → Reply Q) (get : Q → Reply (Text × Q))
    (items : Q → List Text) (open_file : Text → Option (List Text)) (dnslookup : Text → Option Text)
    (max_name_length : ℕ) (fifo : IsFifo put get items max_name_length) (w : Text → ℕ)
    (v : Text × Text → ℕ) (weighs : (h : Text) → v (h, answer (dnslookup h)) ≡ w h)
    (sum num_requesters num_resolvers : ℕ) where
  abbrev Kept : Program Q → Type 0
  Kept s = Account items open_file max_name_length w v sum num_requesters num_resolvers s

  -- Resolver `i` goes from `r` to `r'`.
  Account-resolver :
      (s : Program Q) (i : ℕ) (r r' : Resolver) (hosts : Q) (results : List (Text × Text))
      → Kept s
      → get_elem? s.resolvers i ≡ some r
      → alive r' ≤ alive r
      → total (of_name w) (items hosts) + in_hand v r' + total v results
        ≡ total (of_name w) (items s.hosts) + in_hand v r + total v s.results
      → Pool
          (IsHost max_name_length)
          (items hosts)
          (total alive (set s.resolvers i r'))
          (unsent_hosts num_resolvers s.main)
          num_resolvers
      → (All (NoPill (IsHost max_name_length)) (items s.hosts)
          → All (NoPill (IsHost max_name_length)) (items hosts))
      → Kept (record s { hosts = hosts; results = results; resolvers = set s.resolvers i r' })
  Account-resolver s i r r' hosts results h at le sums hp keep =
      let moved = total-set (in_hand v) s.resolvers i r r' at in
      let lives = total-set alive s.resolvers i r r' at in
      record {
        balance = omega (arith, h.balance, moved, sums);
        requesters = h.requesters;
        file_pool = h.file_pool;
        host_pool = hp;
        calm = elim h.calm [
          | inl none_live ↦ inl none_live
          | inr (clean, unsent) ↦ inr (keep clean, unsent)
        ];
        phase =
            Phase-keeps items open_file max_name_length s.main (items s.files) (items s.files) _ _ _
              _ (λ c. c) (omega arith) (omega (arith, lives, le)) h.phase;
        threads = (h.threads.0, length-set s.resolvers i r' ∙ h.threads.1);
      }

  some_program : (a b : Program Q) → some a ≡ some b → a ≡ b
  some_program a b e = cc

  took_pill :
      (s : Program Q) (i n : ℕ) (name : Text) (hosts : Q)
      → 5 < max_name_length
      → Kept s
      → get_elem? s.resolvers i ≡ some (waiting n)
      → is_poison name ≡ true
      → items s.hosts ≡ name ∷ items hosts
      → Kept (record s {
        hosts = hosts;
        resolvers = set s.resolvers i (
            looked_up put get open_file dnslookup max_name_length n
              (take (max_name_length - 1) name));
      })
  unfolding looked_up
  took_pill s i n name hosts long h at is_pill there =
      let one_less : total alive s.resolvers ≡ suc (total alive (set s.resolvers i (gone n))) =
        omega (arith, total-set alive s.resolvers i (waiting n) (gone n) at) in
      let weight = total-pill w name (items hosts) is_pill in
      let pool =
        subst
          (λ q.
            Pool (IsHost max_name_length) q (total alive s.resolvers)
              (unsent_hosts num_resolvers s.main) num_resolvers)
          there h.host_pool in
      rw (take-poison (max_name_length - 1) name (omega (arith, long)) is_pill, is_pill)
        (Account-resolver s i (waiting n) (gone n) hosts s.results h at (omega arith)
          (omega (arith, weight, ap (total (of_name w)) there))
          (Pool-get_pill (IsHost max_name_length) name (items hosts) _ _ _ is_pill (
            subst
              (λ k.
                Pool (IsHost max_name_length) (name ∷ items hosts) k
                  (unsent_hosts num_resolvers s.main) num_resolvers)
              one_less pool))
          (λ clean. (subst (All (NoPill (IsHost max_name_length))) there clean).1))

  took_name :
      (s : Program Q) (i n : ℕ) (name : Text) (hosts : Q)
      → Kept s
      → get_elem? s.resolvers i ≡ some (waiting n)
      → is_poison name ≡ false
      → length name < max_name_length
      → items s.hosts ≡ name ∷ items hosts
      → Kept (record s {
        hosts = hosts;
        resolvers = set s.resolvers i (
            looked_up put get open_file dnslookup max_name_length n
              (take (max_name_length - 1) name));
      })
  unfolding looked_up
  took_name s i n name hosts h at no_pill short there =
      let r' = writing n name (answer (dnslookup name)) in
      let same : total alive s.resolvers ≡ total alive (set s.resolvers i r') =
        omega (arith, total-set alive s.resolvers i (waiting n) r' at) in
      let weight = total-name w name (items hosts) no_pill in
      let pool =
        subst
          (λ q.
            Pool (IsHost max_name_length) q (total alive s.resolvers)
              (unsent_hosts num_resolvers s.main) num_resolvers)
          there h.host_pool in
      rw (take_all (max_name_length - 1) name (omega (arith, short)), no_pill)
        (Account-resolver s i (waiting n) r' hosts s.results h at (omega arith)
          (omega (arith, weight, weighs name, ap (total (of_name w)) there))
          (subst
            (λ k.
              Pool (IsHost max_name_length) (items hosts) k (unsent_hosts num_resolvers s.main)
                num_resolvers)
            same (Pool-get_name (IsHost max_name_length) name (items hosts) _ _ _ no_pill pool))
          (λ clean. (subst (All (NoPill (IsHost max_name_length))) there clean).1))

  took_host-Account :
      (s s' : Program Q) (i n : ℕ) (reply : Reply (Text × Q))
      → 5 < max_name_length
      → Kept s
      → get_elem? s.resolvers i ≡ some (waiting n)
      → get s.hosts ≡ reply
      → took_host put get open_file dnslookup max_name_length i n reply s ≡ some s'
      → Kept s'
  unfolding took_host
  took_host-Account s s' i n waits long h at e runs = absurd (cc)
  took_host-Account s s' i n error long h at e runs = absurd (fifo.get_error s.hosts e)
  took_host-Account s s' i n (ok (name, hosts)) long h at e runs =
      let there = fifo.get_ok name s.hosts hosts e in
      let sound = (subst (λ q. All (Item (IsHost max_name_length)) q) there h.host_pool.sound).0 in
      subst Kept (some_program _ s' runs) (elim sound [
        | inl is_pill ↦ took_pill s i n name hosts long h at is_pill there
        | inr (no_pill, short) ↦ took_name s i n name hosts h at no_pill short there
      ])

  -- Any step of a resolver keeps the account.
  pub resolver-Account :
      (s s' : Program Q) (i : ℕ) (r : Resolver)
      → 5 < max_name_length
      → Kept s
      → get_elem? s.resolvers i ≡ some r
      → resolver put get open_file dnslookup max_name_length i r s ≡ some s'
      → Kept s'
  unfolding resolver total
  resolver-Account s s' i (waiting n) long h at runs =
      took_host-Account s s' i n (get s.hosts) long h at refl runs
  resolver-Account s s' i (writing n host ip) long h at runs =
      let same : total alive s.resolvers ≡ total alive (set s.resolvers i (waiting (n + 1))) =
        omega (arith, total-set alive s.resolvers i (writing n host ip) (waiting (n + 1)) at) in
      let weight = total-append v s.results ((host, ip) ∷ []) in
      let one : total v ((host, ip) ∷ []) ≡ v (host, ip) = omega arith in
      subst Kept (some_program _ s' runs) (
        Account-resolver s i (writing n host ip) (waiting (n + 1)) s.hosts
          (s.results ++ (host, ip) ∷ []) h at (omega arith) (omega (arith, weight, one))
          (subst
            (λ k.
              Pool (IsHost max_name_length) (items s.hosts) k (unsent_hosts num_resolvers s.main)
                num_resolvers)
            same h.host_pool)
          (λ clean. clean))
  resolver-Account s s' i (gone n) long h at runs = absurd (cc)

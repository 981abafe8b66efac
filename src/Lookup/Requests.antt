-- ===== src/Lookup/Requests.antt =====
-- A step of a requester of assignments/pa6/multi-lookup.c keeps the account of the host names.
use csci_3753_operating_syst.Prelude.{
  ℕ, suc, ◌+◌, ◌-◌, ◌≤◌, ◌≡◌, refl, sym, ap, ◌∙◌, subst, ◌⊎◌, inl, inr, true, false, Option, some,
  List, [], ◌∷◌, ◌++◌, map, arith, get_elem?, set, take, length-set, All, All-set, All-get_elem?,
}
use csci_3753_operating_syst.Lookup.{
  Text, Reply, waits, error, ok, is_poison, cut_line, max_file_name_length, Requester, taking,
  reading, logging, left, Program, opened, took_file, put_host, requester,
}
use csci_3753_operating_syst.Lookup.Pool.{
  NoPill, Pool, of_name, All-snoc, Pool-put_name, Pool-get_name, Pool-get_pill, total-pill,
  total-name,
}
use csci_3753_operating_syst.Lookup.Account.{
  IsFifo, live, alive, unsent_files, unsent_hosts, contents, carried, of_file, IsHost, IsLine,
  IsFile, IsRequester, Phase-keeps, Account,
}
use csci_3753_operating_syst.Lookup.Cut.{take_all, take-poison}
use csci_3753_operating_syst.Prelude.Sums.{total, total-set, total-append, total-elem-le}

module _ {Q : Type 0} (put : Text → Q → Reply Q) (get : Q → Reply (Text × Q))
    (items : Q → List Text) (open_file : Text → Option (List Text)) (dnslookup : Text → Option Text)
    (max_name_length : ℕ) (fifo : IsFifo put get items max_name_length) (w : Text → ℕ)
    (v : Text × Text → ℕ) (sum num_requesters num_resolvers : ℕ) where
  abbrev Kept : Program Q → Type 0
  Kept s = Account items open_file max_name_length w v sum num_requesters num_resolvers s

  -- Requester `i` goes from `r` to `r'`, with these arrays behind the step.
  Account-requester :
      (s : Program Q) (i : ℕ) (r r' : Requester) (files hosts : Q) (serviced : List Text)
      → Kept s
      → get_elem? s.requesters i ≡ some r
      → IsRequester max_name_length r'
      → live r' ≤ live r
      → total (of_name (of_file w open_file)) (items files)
          + carried w r'
          + total (of_name w) (items hosts)
        ≡ total (of_name (of_file w open_file)) (items s.files)
          + carried w r
          + total (of_name w) (items s.hosts)
      → Pool
          (IsFile open_file max_name_length)
          (items files)
          (total live (set s.requesters i r'))
          (unsent_files num_requesters s.main)
          num_requesters
      → Pool
          (IsHost max_name_length)
          (items hosts)
          (total alive s.resolvers)
          (unsent_hosts num_resolvers s.main)
          num_resolvers
      → (All (NoPill (IsFile open_file max_name_length)) (items s.files)
          → All (NoPill (IsFile open_file max_name_length)) (items files))
      → (total live (set s.requesters i r') ≡ 0)
        ⊎ (All (NoPill (IsHost max_name_length)) (items hosts)
            × (unsent_hosts num_resolvers s.main ≡ num_resolvers))
      → Kept (record s {
        files = files;
        hosts = hosts;
        serviced = serviced;
        requesters = set s.requesters i r';
      })
  Account-requester s i r r' files hosts serviced h at hr le sums fp hp keep calm =
      let moved = total-set (carried w) s.requesters i r r' at in
      let lives = total-set live s.requesters i r r' at in
      record {
        balance = omega (arith, h.balance, moved, sums);
        requesters = All-set (IsRequester max_name_length) s.requesters i r' h.requesters hr;
        file_pool = fp;
        host_pool = hp;
        calm = calm;
        phase =
            Phase-keeps items open_file max_name_length s.main (items s.files) (items files) _ _ _ _
              keep (omega (arith, lives, le)) (omega arith) h.phase;
        threads = (length-set s.requesters i r' ∙ h.threads.0, h.threads.1);
      }

  same_live :
      (s : Program Q) (i : ℕ) (r r' : Requester)
      → get_elem? s.requesters i ≡ some r
      → live r ≡ 1
      → live r' ≡ 1
      → total live s.requesters ≡ total live (set s.requesters i r')
  same_live s i r r' at one one' = omega (arith, total-set live s.requesters i r r' at, one, one')

  -- The pools and the calm are as they were, where a live requester goes on.
  goes_on :
      (s : Program Q) (i : ℕ) (r r' : Requester) (serviced : List Text)
      → Kept s
      → get_elem? s.requesters i ≡ some r
      → IsRequester max_name_length r'
      → live r ≡ 1
      → live r' ≡ 1
      → carried w r' ≡ carried w r
      → Kept (record s { serviced = serviced; requesters = set s.requesters i r' })
  goes_on s i r r' serviced h at hr one one' same =
      let e = same_live s i r r' at one one' in
      Account-requester s i r r' s.files s.hosts serviced h at hr (omega (arith, one, one'))
        (omega (arith, same))
        (subst
          (λ n.
            Pool (IsFile open_file max_name_length) (items s.files) n
              (unsent_files num_requesters s.main) num_requesters)
          e h.file_pool)
        h.host_pool (λ clean. clean)
        (subst
          (λ n.
            (n ≡ 0)
            ⊎ (All (NoPill (IsHost max_name_length)) (items s.hosts)
                × (unsent_hosts num_resolvers s.main ≡ num_resolvers)))
          e h.calm)

  -- A file is opened.
  opened_lem :
      (n : ℕ) (name : Text)
      → is_poison name ≡ false
      → IsFile open_file max_name_length name
      → (lines : List Text) × (opened put get open_file dnslookup max_name_length n name
          ≡ reading n lines)
        × All (IsLine max_name_length) lines
        × (contents open_file name ≡ map cut_line lines)
  unfolding opened
  opened_lem n name no_pill (short, fits, (lines, opens, good)) =
      (lines, rw (no_pill, opens) refl, good, rw (opens, contents) refl)

  some_program : (a b : Program Q) → some a ≡ some b → a ≡ b
  some_program a b e = cc

  -- The calm after a step of a requester that leaves the hosts as they were.
  calm_on :
      (s : Program Q) (i : ℕ) (r r' : Requester)
      → Kept s
      → get_elem? s.requesters i ≡ some r
      → live r' ≤ live r
      → (total live (set s.requesters i r') ≡ 0)
        ⊎ (All (NoPill (IsHost max_name_length)) (items s.hosts)
            × (unsent_hosts num_resolvers s.main ≡ num_resolvers))
  calm_on s i r r' h at le = elim h.calm [
    | inl none_live ↦ inl (omega (arith, none_live, le, total-set live s.requesters i r r' at))
    | inr clean ↦ inr clean
  ]

  took_pill :
      (s : Program Q) (i n : ℕ) (name : Text) (files : Q)
      → Kept s
      → get_elem? s.requesters i ≡ some (taking n)
      → is_poison name ≡ true
      → items s.files ≡ name ∷ items files
      → (All (NoPill (IsFile open_file max_name_length)) (items s.files)
          → All (NoPill (IsFile open_file max_name_length)) (items files))
      → Kept (record s {
        files = files;
        requesters = set s.requesters i (
            opened put get open_file dnslookup max_name_length n
              (take (max_file_name_length - 1) name));
      })
  unfolding opened
  took_pill s i n name files h at is_pill there keep =
      let pool =
        subst
          (λ q.
            Pool (IsFile open_file max_name_length) q (total live s.requesters)
              (unsent_files num_requesters s.main) num_requesters)
          there h.file_pool in
      let one_less : total live s.requesters ≡ suc (total live (set s.requesters i (left n))) =
        omega (arith, total-set live s.requesters i (taking n) (left n) at) in
      let weight : total (of_name (of_file w open_file)) (name ∷ items files)
          ≡ total (of_name (of_file w open_file)) (items files) =
        total-pill (of_file w open_file) name (items files) is_pill in
      rw (take-poison 19 name (omega arith) is_pill, is_pill)
        (Account-requester s i (taking n) (left n) files s.hosts s.serviced h at tt (omega arith)
          (omega (arith, weight, ap (total (of_name (of_file w open_file))) there))
          (Pool-get_pill (IsFile open_file max_name_length) name (items files) _ _ _ is_pill (
            subst
              (λ k.
                Pool (IsFile open_file max_name_length) (name ∷ items files) k
                  (unsent_files num_requesters s.main) num_requesters)
              one_less pool))
          h.host_pool keep (calm_on s i (taking n) (left n) h at (omega arith)))

  took_name :
      (s : Program Q) (i n : ℕ) (name : Text) (files : Q)
      → Kept s
      → get_elem? s.requesters i ≡ some (taking n)
      → is_poison name ≡ false
      → IsFile open_file max_name_length name
      → items s.files ≡ name ∷ items files
      → (All (NoPill (IsFile open_file max_name_length)) (items s.files)
          → All (NoPill (IsFile open_file max_name_length)) (items files))
      → Kept (record s {
        files = files;
        requesters = set s.requesters i (
            opened put get open_file dnslookup max_name_length n
              (take (max_file_name_length - 1) name));
      })
  took_name s i n name files h at no_pill good there keep =
      let pool =
        subst
          (λ q.
            Pool (IsFile open_file max_name_length) q (total live s.requesters)
              (unsent_files num_requesters s.main) num_requesters)
          there h.file_pool in
      let (lines, opens, fine, inside) = opened_lem n name no_pill good in
      let e = same_live s i (taking n) (reading n lines) at refl refl in
      let weight : total (of_name (of_file w open_file)) (name ∷ items files)
          ≡ total w (map cut_line lines) + total (of_name (of_file w open_file)) (items files) =
        total-name (of_file w open_file) name (items files) no_pill
        ∙ ap (λ k. total w k + total (of_name (of_file w open_file)) (items files)) inside in
      rw (take_all 19 name (omega (arith, good.0)), opens)
        (Account-requester s i (taking n) (reading n lines) files s.hosts s.serviced h at fine
          (omega arith) (omega (arith, weight, ap (total (of_name (of_file w open_file))) there))
          (subst
            (λ k.
              Pool (IsFile open_file max_name_length) (items files) k
                (unsent_files num_requesters s.main) num_requesters)
            e
            (Pool-get_name (IsFile open_file max_name_length) name (items files) _ _ _ no_pill
              pool))
          h.host_pool keep (calm_on s i (taking n) (reading n lines) h at (omega arith)))

  -- A requester takes a file or a pill.
  took_file-Account :
      (s s' : Program Q) (i n : ℕ) (reply : Reply (Text × Q))
      → Kept s
      → get_elem? s.requesters i ≡ some (taking n)
      → get s.files ≡ reply
      → took_file put get open_file dnslookup max_name_length i n reply s ≡ some s'
      → Kept s'
  unfolding took_file
  took_file-Account s s' i n waits h at e runs = absurd (cc)
  took_file-Account s s' i n error h at e runs = absurd (fifo.get_error s.files e)
  took_file-Account s s' i n (ok (name, files)) h at e runs =
      let there = fifo.get_ok name s.files files e in
      let pool =
        subst
          (λ q.
            Pool (IsFile open_file max_name_length) q (total live s.requesters)
              (unsent_files num_requesters s.main) num_requesters)
          there h.file_pool in
      let keep : All (NoPill (IsFile open_file max_name_length)) (items s.files)
          → All (NoPill (IsFile open_file max_name_length)) (items files) =
        λ clean. (subst (All (NoPill (IsFile open_file max_name_length))) there clean).1 in
      subst Kept (some_program _ s' runs) (elim pool.sound.0 [
        | inl is_pill ↦ took_pill s i n name files h at is_pill there keep
        | inr (no_pill, good) ↦ took_name s i n name files h at no_pill good there keep
      ])

  -- A requester puts a line into the array of the hosts.
  put_host-Account :
      (s s' : Program Q) (i n : ℕ) (buffer : Text) (lines : List Text) (reply : Reply Q)
      → Kept s
      → get_elem? s.requesters i ≡ some (reading n (buffer ∷ lines))
      → put (cut_line buffer) s.hosts ≡ reply
      → put_host put get open_file dnslookup max_name_length i n (cut_line buffer) lines reply s
        ≡ some s'
      → Kept s'
  unfolding put_host total
  put_host-Account s s' i n buffer lines waits h at e runs = absurd (cc)
  put_host-Account s s' i n buffer lines error h at e runs =
      let good =
        All-get_elem? (IsRequester max_name_length) s.requesters i (reading n (buffer ∷ lines))
          h.requesters at in
      absurd (fifo.put_error (cut_line buffer) s.hosts good.0.1 e)
  put_host-Account s s' i n buffer lines (ok hosts) h at e runs =
      let host = cut_line buffer in
      let good =
        All-get_elem? (IsRequester max_name_length) s.requesters i (reading n (buffer ∷ lines))
          h.requesters at in
      let there = fifo.put_ok host s.hosts hosts e in
      let some_live = total-elem-le live s.requesters i (reading n (buffer ∷ lines)) at in
      let same = same_live s i (reading n (buffer ∷ lines)) (logging n host lines) at refl refl in
      let weight = total-append (of_name w) (items s.hosts) (host ∷ []) in
      let one = total-name w host [] good.0.0 in
      let none_more : total (of_name w) [] ≡ 0 = refl in
      elim h.calm [
        | inl none_live ↦ absurd (omega arith)
        | inr (clean, unsent) ↦ subst Kept (some_program _ s' runs) (
            Account-requester s i (reading n (buffer ∷ lines)) (logging n host lines) s.files hosts
              s.serviced h at good.1 (omega arith)
              (omega (arith, ap (total (of_name w)) there, weight, one, none_more))
              (subst
                (λ k.
                  Pool (IsFile open_file max_name_length) (items s.files) k
                    (unsent_files num_requesters s.main) num_requesters)
                same h.file_pool)
              (subst
                (λ q.
                  Pool (IsHost max_name_length) q (total alive s.resolvers)
                    (unsent_hosts num_resolvers s.main) num_resolvers)
                (sym there)
                (Pool-put_name (IsHost max_name_length) host (items s.hosts) _ _ _ good.0 clean
                  unsent h.host_pool))
              (λ clean'. clean')
              (inr (
                subst (All (NoPill (IsHost max_name_length))) (sym there)
                    (All-snoc (NoPill (IsHost max_name_length)) (items s.hosts) host clean good.0),
                unsent,
              )))
      ]

  -- Any step of a requester keeps the account.
  pub requester-Account :
      (s s' : Program Q) (i : ℕ) (r : Requester)
      → Kept s
      → get_elem? s.requesters i ≡ some r
      → requester put get open_file dnslookup max_name_length i r s ≡ some s'
      → Kept s'
  unfolding requester total
  requester-Account s s' i (taking n) h at runs =
      took_file-Account s s' i n (get s.files) h at refl runs
  requester-Account s s' i (reading n []) h at runs =
      subst Kept (some_program _ s' runs)
        (goes_on s i (reading n []) (taking (n + 1)) s.serviced h at tt refl refl refl)
  requester-Account s s' i (reading n (buffer ∷ lines)) h at runs =
      put_host-Account s s' i n buffer lines (put (cut_line buffer) s.hosts) h at refl runs
  requester-Account s s' i (logging n host lines) h at runs =
      let good =
        All-get_elem? (IsRequester max_name_length) s.requesters i (logging n host lines)
          h.requesters at in
      subst Kept (some_program _ s' runs) (
        goes_on s i (logging n host lines) (reading n lines) (s.serviced ++ host ∷ []) h at good
          refl refl refl)
  requester-Account s s' i (left n) h at runs = absurd (cc)

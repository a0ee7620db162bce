-- ===== src/Start/Connected.antt =====
-- The connections of a server that has started (`main` of chat_system/server.go).
use selected_course_projects.Prelude.{
  ℕ, zero, suc, ◌≤◌, ◌<◌, ◌≡◌, refl, sym, ap, ◌∙◌, true, false, none, some, List, [], ◌∷◌, arith,
  get_elem?, Bool-cases, inl, inr, subst,
}
use selected_course_projects.Prelude.Decimal.{atoi-itoa, to_int32-IsInt32, IsInt32}
use selected_course_projects.Prelude.Int.{ℤ, pos}
use selected_course_projects.Prelude.Map.{lookup}
use selected_course_projects.Prelude.Number.{itoa, to_int32}
use selected_course_projects.Prelude.Text.{Str, str_eq, beq_str, beq_str_iff}
use selected_course_projects.Exec.Returns
use selected_course_projects.Exec.Returns.{Returns, returns}
use selected_course_projects.Heap.{Heap, need}
use selected_course_projects.Network.{Transport, World}
use selected_course_projects.Network.Broadcast.{OpensAfter, replica_set_up-Returns}
use selected_course_projects.Network.Sending.{HasConfig}
use selected_course_projects.Replica.{Server}
use selected_course_projects.Start.{
  all_servers, new_server, other_servers, set_up_all, start_server,
}
use selected_course_projects.Start.Others.{is_server, without, other_servers-without}

-- The number that a server is started with is its number.
new_server-me : (n : ℕ) (h : Heap) → n < 2147483648 → (new_server (itoa (pos n)) h).me ≡ pos n
unfolding new_server
new_server-me n h lt =
    let r : IsInt32 (pos n) = (omega arith, omega arith) in
    ap (λ (x : ℤ × _). to_int32 x.0) (atoi-itoa (pos n) r) ∙ to_int32-IsInt32 (pos n) r

-- None of some names is `own`.
abbrev NoneIs : (own : Str) → List Str → Type 0
NoneIs own [] = Unit {0}
NoneIs own (s ∷ rest) = (beq_str s own ≡ false) × NoneIs own rest

module _ {W : Type 0} (t : Transport W) where
  -- Whatever has happened on the network, each server answers one of the next attempts.
  abbrev pub AllOpen : (rounds : ℕ) → Type 0
  AllOpen rounds = (server : Str) (n : W) → (k : ℕ) × OpensAfter t server k n × (k < rounds)

  abbrev pub HaveConfigs : List Str → World W → Type 0
  HaveConfigs [] w = Unit {0}
  HaveConfigs (s ∷ rest) w = HasConfig s w × HaveConfigs rest w

  keeps_config :
      (server s : Str) (w w' : World W)
      → HasConfig server w'
      → (beq_str server s ≡ false → lookup s w'.stream_set ≡ lookup s w.stream_set)
      → HasConfig s w
      → HasConfig s w'
  keeps_config server s w w' own keep (c, e) = elim (Bool-cases (beq_str server s)) [
    | inl same ↦ subst (λ x. HasConfig x w') ((beq_str_iff server s).0 same) own
    | inr other ↦ (c, keep other ∙ e)
  ]

  -- All the connections are set up, those that were there are kept, and there is none to others.
  set_up_all-Returns :
      (rounds : ℕ) (own : Str) (servers : List Str) (w : World W)
      → AllOpen rounds
      → NoneIs own servers
      → Returns
          (λ _ w'.
            (w'.server ≡ w.server)
            × HaveConfigs servers w'
            × ((s : Str) → HasConfig s w → HasConfig s w')
            × (lookup own w'.stream_set ≡ lookup own w.stream_set))
          (set_up_all t rounds servers w)
  unfolding set_up_all
  set_up_all-Returns rounds own [] w opens apart = returns (refl, tt, (λ s c. c), refl)
  set_up_all-Returns rounds own (server ∷ rest) w opens apart =
      let (k, o, lt) = opens server w.net in
      Returns.bind (replica_set_up-Returns t server k rounds w o lt) λ _ w1 (e, kept, keep, sent).
        let c : HasConfig server w1 = (_, kept) in
        Returns.weaken (set_up_all-Returns rounds own rest w1 opens apart.1)
          λ _ w2 (e', cs, keep', away). (
            e' ∙ e,
            (keep' server c, cs),
            (λ s d. keep' s (keeps_config server s w w1 c (keep s) d)),
            away ∙ keep own apart.0,
          )

  abbrev started : Str → World W → World W
  started own w = record w { server = new_server own w.server.heap; stream_set = [] }

  -- the start with the number's argument
  start_server_lem :
      (rounds n : ℕ) (first : Str) (rest : List Str) (w : World W) (servers : List Str)
      → n < 2147483648
      → other_servers (pos n) ≡ some servers
      → start_server t rounds (first ∷ itoa (pos n) ∷ rest) true w
        ≡ set_up_all t rounds servers (started (itoa (pos n)) w)
  unfolding start_server need get_elem?
  start_server_lem rounds n first rest w servers lt e =
      rw (new_server-me n w.server.heap lt, e) refl

  -- a server is not among the others
  none_own : (n : ℕ) → 1 ≤ n → n ≤ 5 → NoneIs (itoa (pos n)) (without (pos n) all_servers)
  unfolding without itoa beq_str
  none_own zero lo hi = absurd (omega arith)
  none_own (suc zero) lo hi = (refl, (refl, (refl, (refl, tt))))
  none_own (suc (suc zero)) lo hi = (refl, (refl, (refl, (refl, tt))))
  none_own (suc (suc (suc zero))) lo hi = (refl, (refl, (refl, (refl, tt))))
  none_own (suc (suc (suc (suc zero)))) lo hi = (refl, (refl, (refl, (refl, tt))))
  none_own (suc (suc (suc (suc (suc zero))))) lo hi = (refl, (refl, (refl, (refl, tt))))
  none_own (suc (suc (suc (suc (suc (suc n)))))) lo hi = absurd (omega arith)

  -- The start of a server with a number from 1 to 5 in its arguments returns, when it can listen and each
  -- other server answers one of the next attempts, within the rounds. The server then has its number, no
  -- groups, and one connection to each of the others, and none to itself.
  pub start_server-Connected :
      (rounds n : ℕ) (first : Str) (rest : List Str) (w : World W)
      → 1 ≤ n
      → n ≤ 5
      → AllOpen rounds
      → Returns
          (λ _ w'.
            (w'.server ≡ new_server (itoa (pos n)) w.server.heap)
            × (w'.server.me ≡ pos n)
            × HaveConfigs (without (pos n) all_servers) w'
            × (lookup (itoa (pos n)) w'.stream_set ≡ none))
          (start_server t rounds (first ∷ itoa (pos n) ∷ rest) true w)
  unfolding lookup
  start_server-Connected rounds n first rest w lo hi opens =
      let own : Str = itoa (pos n) in
      let servers : List Str = without (pos n) all_servers in
      let known : is_server (pos n) ≡ true = ground arith in
      let others : other_servers (pos n) ≡ some servers =
        other_servers-without (pos n) ∙ rw known refl in
      subst (Returns _) (sym (start_server_lem rounds n first rest w servers (omega arith) others))
        (Returns.weaken
          (set_up_all-Returns rounds own servers (started own w) opens (none_own n lo hi))
          λ _ w' (e, cs, keep, away). (
            e,
            ap (λ (s : Server). s.me) e ∙ new_server-me n w.server.heap (omega arith),
            cs,
            away,
          ))

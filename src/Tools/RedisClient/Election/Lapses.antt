-- ===== src/Tools/RedisClient/Election/Lapses.antt =====
-- A lock that ends while its process goes on.
use cpp_client_rabbit_mq.Common.{
  ℕ, ◌≡◌, ◌≢◌, refl, sym, ap, ◌∙◌, true, Bytes, bytes_eq_refl, none, some,
}
use cpp_client_rabbit_mq.Tools.RedisClient.Election.{
  start, seizing, ending, naming, waiting, done, call_at, go_on, Server, System, fresh_system, act,
  acts, lapse,
}
use cpp_client_rabbit_mq.Tools.RedisClient.Election.Invariant.{act_lem}
use cpp_client_rabbit_mq.Tools.RedisClient.Election.Stopped.{Reaches, here, next}

module _ (server : Server) (resource : Bytes) (name : ℕ → Bytes) where
  open server use {
    Store, holder, has_end, apply, get_lem, setnx_free, setnx_held, expire_lem, set_lem,
  }

  abbrev Processes : Type 0
  Processes = System server resource name

  -- What a process that runs alone from a free lock comes to.
  record Wins (s t : Processes) (i : ℕ) : Type 0 where
    master : t.place i ≡ done true
    limited : has_end t.store ≡ true
    others : (j : ℕ) → i ≢ j → t.place j ≡ s.place j

  module _ (s : Processes) (i : ℕ) where
    abbrev turn : Processes → Processes
    turn = act server resource name i

    abbrev served : Processes
    served = turn (turn (turn (turn (turn s))))

    wins : s.place i ≡ start → holder s.store ≡ none → Wins s served i
    unfolding call_at go_on
    wins h free =
        let (p1, e1, o1) = act_lem server resource name i s start none h free in
        let f1 : holder (turn s).store ≡ none = ap holder (e1 ∙ get_lem _ s.store) ∙ free in
        let (p2, e2, o2) = act_lem server resource name i (turn s) seizing none p1 f1 in
        let taken = setnx_free resource (name i) (turn s).store f1 in
        let s2 = turn (turn s) in
        let h2 : holder s2.store ≡ some (name i) = ap holder e2 ∙ taken.0 in
        let (p3, e3, o3) = act_lem server resource name i s2 ending (some (name i)) p2 h2 in
        let s3 = turn s2 in
        let limited = expire_lem resource (name i) s2.store h2 in
        let h3 : holder s3.store ≡ some (name i) = ap holder e3 ∙ limited.0 in
        let (p4, e4, o4) = act_lem server resource name i s3 naming (some (name i)) p3 h3 in
        let s4 = turn s3 in
        let named = set_lem resource (name i) s3.store in
        let h4 : holder s4.store ≡ some (name i) = ap holder e4 ∙ (named.0 ∙ h3) in
        let (p5, e5, o5) = act_lem server resource name i s4 waiting (some (name i)) p4 h4 in
        record {
          master = p5 ∙ ap done (bytes_eq_refl (name i));
          limited =
              ap has_end (e5 ∙ get_lem _ s4.store)
              ∙ (ap has_end e4 ∙ (named.1 ∙ (ap has_end e3 ∙ limited.1)));
          others = λ j ne. o5 j ne ∙ (o4 j ne ∙ (o3 j ne ∙ (o2 j ne ∙ o1 j ne)));
        }

  five_turns :
      (s t : Processes) (i : ℕ)
      → Reaches server resource name s t
      → Reaches server resource name s (served t i)
  five_turns s t i r =
      let go : Processes → Processes = act server resource name i in
      next
        (next (next (next (next r (acts i t)) (acts i (go t))) (acts i (go (go t))))
          (acts i (go (go (go t)))))
        (acts i (go (go (go (go t)))))

  -- The lock tells nothing of who believes to be the master: with any two processes, one can become
  -- the master, its lock ends, and the other becomes the master too, while the first one still is.
  pub two_masters :
      (store : Store) (i j : ℕ)
      → holder store ≡ none
      → i ≢ j
      → (s : Processes) × Reaches server resource name (fresh_system server resource name store) s
        × (s.place i ≡ done true)
        × (s.place j ≡ done true)
  two_masters store i j free ne =
      let s0 : Processes = fresh_system server resource name store in
      let s1 = served s0 i in
      let first = wins s0 i refl free in
      let s2 : Processes = record s1 { store = store } in
      let second = wins s2 j (first.others j ne) free in
      let r1 = five_turns s0 s0 i here in
      (
        served s2 j,
        five_turns s0 s2 j (next r1 (lapse s1 store first.limited free)),
        second.others i (λ q. ne (sym q)) ∙ first.master,
        second.master,
      )

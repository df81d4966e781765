-- ===== src/Lab/Concurrent/Refines.antt =====
-- The overlapping calls of tools/owasp-crs-lab.py, which find their entries by request ids in a
-- common log, do what `Spec` promises.
use envoy_modsecurity.Prelude.{
  ℕ, ◌≡◌, refl, sym, ap, subst, ◌∙◌, Bool, List, [], ◌∷◌, ◌++◌, Option, none, some, Mem, arith,
  ◌==◌, nat_eq, list_eq, Bool-cases, inl, inr, beq_refl,
}
use mathlib.Core.Path.{fun_ext}
use mathlib.Core.List.{append-nil, reverse}
use envoy_modsecurity.Lab.Access.{find_entry}
use envoy_modsecurity.Prelude.Dicts.{Dict, get}
use envoy_modsecurity.Prelude.Text.{Str, codes}
use envoy_modsecurity.Prelude.Json.{Json, Fields, items}
use envoy_modsecurity.Lab.Request.{Request}
use envoy_modsecurity.Lab.Execute.{Reply}
use envoy_modsecurity.Lab.Outgoing.{outgoing_managed}
use envoy_modsecurity.Lab.Errors.{runtime_error}
use envoy_modsecurity.Lab.Concurrent.{
  Phase, sending, waiting, returned, raised, Line, logged, foreign, Shared, set_at, move, fresh,
  copied_id, with_id, read_lines, Transition, not_running, begin, refuse, receive, answer, lose,
  write_entry, write_other, find, expire, exit, Reach, here, next,
}
use envoy_modsecurity.Lab.Concurrent.Own.{
  own, own-append, AreDistinct, AreLabelled, AreLabelled-append, AreLabelled-prefix, find_entry-own,
}
use envoy_modsecurity.Lab.Concurrent.Spec.{
  Isolated, nothing_yet, begins, answers, fails, logs, finds, expires, Runs, not_started, act,
  is_open, Runs-OwnsReturned,
}

-- What the calls have, seen without the ids and the log.
unfoldable pub view : Shared → Isolated
unfolding own
view s = record { phase = s.phase; entries = λ i. own i s.log }

-- The request carries the id of call i.
abbrev pub Carries : (ℕ → Str) → ℕ → Request → Type 0
Carries id i q = get (codes "x-owasp-lab-id") q.headers ≡ some (id i)

module _ (upper : Str → Str) (id : ℕ → Str) where
  pub record IsConsistent (s : Shared) : Type 0 where
    pub labelled : AreLabelled id s.log
    pub carried : (i : ℕ) (q : Request) → s.sent i ≡ some q → Carries id i q
    pub sends : (i : ℕ) (q : Request) → s.phase i ≡ sending q → Carries id i q

  fresh-IsConsistent : IsConsistent fresh
  fresh-IsConsistent = record {
    labelled = tt;
    carried = λ i q h. absurd (ground arith);
    sends = λ i q h. absurd (ground arith);
  }

  moved :
      (s : Shared) (i : ℕ) (p : Phase)
      → IsConsistent s
      → ((q : Request) → p ≡ sending q → Carries id i q)
      → IsConsistent (move i p s)
  moved s i p v new = record {
    labelled = v.labelled;
    carried = v.carried;
    sends = λ k q e. elim (Bool-cases (k == i)) [
      | inl same ↦
          let owner : i ≡ k = ground arith in
          subst (λ j. Carries id j q) owner (new q (ground arith))
      | inr other ↦ v.sends k q (ground arith)
    ];
  }

  with_id-Carries : (i : ℕ) (q : Request) → Carries id i (with_id (id i) q)
  unfolding with_id
  with_id-Carries i q = (outgoing_managed q.headers (id i) q.body).1

  received :
      (s : Shared) (i : ℕ) (q : Request)
      → IsConsistent s
      → Carries id i q
      → (k : ℕ) (q' : Request) → set_at i (some q) s.sent k ≡ some q'
      → Carries id k q'
  received s i q v c k q' e = elim (Bool-cases (k == i)) [
    | inl same ↦
        let owner : i ≡ k = ground arith in
        let it : q ≡ q' = ground arith in
        subst (λ j. Carries id j q') owner (subst (Carries id i) it c)
    | inr other ↦ v.carried k q' (ground arith)
  ]

  -- Every step keeps the ids where they belong.
  pub Transition-IsConsistent :
      {s t : Shared} → Transition upper id s t → IsConsistent s → IsConsistent t
  Transition-IsConsistent (begin s i payload q at valid) v =
      moved s i (sending (with_id (id i) q)) v λ q' e.
        let same : with_id (id i) q ≡ q' = ground arith in
        subst (Carries id i) same (with_id-Carries i q)
  Transition-IsConsistent (not_running s i at) v =
      moved s i (raised runtime_error) v (λ q h. absurd (ground arith))
  Transition-IsConsistent (refuse s i payload e at bad) v =
      moved s i (raised e) v (λ q h. absurd (ground arith))
  Transition-IsConsistent (receive s i q at) v = record {
    labelled = v.labelled;
    carried = received s i q v (v.sends i q at);
    sends = v.sends;
  }
  Transition-IsConsistent (answer s i q reply at) v =
      moved s i (waiting q reply) v (λ q h. absurd (ground arith))
  Transition-IsConsistent (lose s i q e at) v =
      moved s i (raised e) v (λ q h. absurd (ground arith))
  Transition-IsConsistent (write_entry s i q fs had copied) v = record {
    labelled =
        AreLabelled-append id s.log (logged i fs) v.labelled
          (copied ∙ ap copied_id (v.carried i q had));
    carried = v.carried;
    sends = v.sends;
  }
  Transition-IsConsistent (write_other s j other) v = record {
    labelled = AreLabelled-append id s.log (foreign j) v.labelled other;
    carried = v.carried;
    sends = v.sends;
  }
  Transition-IsConsistent (find s i q reply seen rest torn entry at split found) v =
      moved s i (returned reply (some entry)) v (λ q h. absurd (ground arith))
  Transition-IsConsistent (expire s i q reply at) v =
      moved s i (returned reply none) v (λ q h. absurd (ground arith))
  Transition-IsConsistent (exit s i q reply at) v =
      moved s i (raised runtime_error) v (λ q h. absurd (ground arith))

  pub Reach-IsConsistent : {s t : Shared} → Reach upper id s t → IsConsistent s → IsConsistent t
  Reach-IsConsistent here v = v
  Reach-IsConsistent (next r step) v = Transition-IsConsistent step (Reach-IsConsistent r v)

  own-append-logged :
      (log : List Line) (i : ℕ) (fs : Fields) (k : ℕ)
      → set_at i (own i log ++ items fs ∷ []) (λ j. own j log) k ≡ own k (log ++ logged i fs ∷ [])
  unfolding own
  own-append-logged log i fs k = elim (Bool-cases (k == i)) [
    | inl same ↦
        let here : k ≡ i = ground arith in
        rw here (rw (beq_refl i) (sym (own-append i log (logged i fs ∷ []) ∙ rw (beq_refl i) refl)))
    | inr other ↦
        rw other (sym (own-append k log (logged i fs ∷ []) ∙ rw other (append-nil (own k log))))
  ]

  find_entry-own_part :
      AreDistinct id
      → (i : ℕ) (entry : Dict Str Json) (s : Shared) (seen rest : List Line) (torn : Bool)
      → IsConsistent s
      → s.log ≡ seen ++ rest
      → find_entry (id i) (reverse (read_lines seen torn)) ≡ some entry
      → Mem entry (own i s.log)
  find_entry-own_part d i entry s seen rest torn v split found =
      subst (λ log. Mem entry (own i log)) (sym split)
        (find_entry-own d i entry seen rest torn
          (AreLabelled-prefix id seen rest (subst (AreLabelled id) split v.labelled)) found)

  view-logged :
      (s : Shared) (i : ℕ) (fs : Fields)
      → record (view s) {
        entries = set_at i ((view s).entries i ++ items fs ∷ []) (view s).entries;
      }
        ≡ view (record s { log = s.log ++ logged i fs ∷ [] })
  unfolding view own
  view-logged s i fs =
      ap (λ (e : ℕ → List (Dict Str Json)). record { phase = s.phase; entries = e })
        (fun_ext (own-append-logged s.log i fs))

  view-foreign :
      (s : Shared) (j : Option Json) → view s ≡ view (record s { log = s.log ++ foreign j ∷ [] })
  unfolding view own
  view-foreign s j =
      ap (λ (e : ℕ → List (Dict Str Json)). record { phase = s.phase; entries = e })
        (fun_ext (λ k. sym (own-append k s.log (foreign j ∷ []) ∙ append-nil (own k s.log))))

  -- One step is one act of the specification, or none.
  Transition-Runs :
      {s t : Shared} (a : Isolated)
      → AreDistinct id
      → IsConsistent s
      → Transition upper id s t
      → Runs a (view s)
      → Runs a (view t)
  unfolding view
  Transition-Runs a d v (begin s i payload q at valid) r = act r (begins (view s) i _ at)
  Transition-Runs a d v (not_running s i at) r =
      act r (fails (view s) i runtime_error (ap is_open at))
  Transition-Runs a d v (refuse s i payload e at bad) r = act r (fails (view s) i e (ap is_open at))
  Transition-Runs a d v (receive s i q at) r = r
  Transition-Runs a d v (answer s i q reply at) r = act r (answers (view s) i q reply at)
  Transition-Runs a d v (lose s i q e at) r = act r (fails (view s) i e (ap is_open at))
  Transition-Runs a d v (write_entry s i q fs had copied) r =
      subst (Runs a) (view-logged s i fs) (act r (logs (view s) i (items fs)))
  Transition-Runs a d v (write_other s j other) r = subst (Runs a) (view-foreign s j) r
  Transition-Runs a d v (find s i q reply seen rest torn entry at split found) r = act r (
      finds (view s) i q reply entry at
        (find_entry-own_part d i entry s seen rest torn v split found))
  Transition-Runs a d v (expire s i q reply at) r = act r (expires (view s) i q reply at)
  Transition-Runs a d v (exit s i q reply at) r =
      act r (fails (view s) i runtime_error (ap is_open at))

  view-fresh : view fresh ≡ nothing_yet
  unfolding view own
  view-fresh = refl

  -- Whatever the overlap of the calls of execute_request, which find their entries by request ids
  -- in one log, their run is a run of the specification in which each call has entries of its own
  -- and returns only these, if the calls draw different ids.
  pub Reach-Runs :
      {t : Shared} → AreDistinct id → Reach upper id fresh t → Runs nothing_yet (view t)
  Reach-Runs d here = subst (Runs nothing_yet) (sym view-fresh) not_started
  Reach-Runs d (next r step) =
      Transition-Runs nothing_yet d (Reach-IsConsistent r fresh-IsConsistent) step (Reach-Runs d r)

  -- After any overlap of calls that draw different ids, the entry that a call has returned is one
  -- that Envoy has logged for the request of that call.
  pub returned_own :
      {t : Shared} (i : ℕ) (reply : Reply) (entry : Dict Str Json)
      → AreDistinct id
      → Reach upper id fresh t
      → t.phase i ≡ returned reply (some entry)
      → Mem entry (own i t.log)
  unfolding view
  returned_own i reply entry d r e =
      Runs-OwnsReturned (Reach-Runs d r) (λ k reply' entry' h. absurd (ground arith)) i reply entry
        e

-- ===== src/Crawl/Terminates.antt =====
-- The loop of a crawl ends, whatever the devices answer.
use netbuddy.Base.{
  ℕ, zero, suc, ◌+◌, ◌≤◌, ◌≡◌, refl, sym, ◌∙◌, ap, List, [], ◌∷◌, ◌++◌, map, append_assoc,
  append-nil, arith, Option, none, some, Result, ok, raised, Text, leb, All, All-append, Bool-cases,
  inl, inr, contains, nat_eq, and_then, subst,
}
use mathlib.Core.List.{cons≢nil}
use netbuddy.Inventory.{Device}
use netbuddy.Discovery.Rows.{Adapter, LldpNeighbor}
use netbuddy.Crawl.Loop.{
  CrawlState, CrawlCall, is_taken, new_neighbors, insert_device, add_guessed, add_at, add_neighbor,
  add_all, follow, discover, visit_with, visit, carry_on, crawl_loop, start, crawl,
}

seeds-depth : (seeds : List Device) → All (λ (p : Device × ℕ). p.1 ≡ 0) (map (λ d. (d, 0)) seeds)
seeds-depth [] = tt
seeds-depth (d ∷ seeds) = (refl, seeds-depth seeds)

module _ (call : CrawlCall) where
  -- What a visit adds to the queue stands one step deeper.
  abbrev Appends : ℕ → List (Device × ℕ) → List (Device × ℕ) → Type 0
  Appends depth q r = (more : List (Device × ℕ)) × (r ≡ q ++ more) × All (λ p. p.1 ≡ suc depth) more

  Appends-refl : (depth : ℕ) (q : List (Device × ℕ)) → Appends depth q q
  Appends-refl depth q = ([], sym (append-nil q), tt)

  Appends-trans :
      (depth : ℕ) (p q r : List (Device × ℕ))
      → Appends depth p q
      → Appends depth q r
      → Appends depth p r
  Appends-trans depth p q r (a, ea, ha) (b, eb, hb) = (
    a ++ b,
    eb ∙ ap (λ l. l ++ b) ea ∙ append_assoc p a b,
    All-append (λ d. d.1 ≡ suc depth) a b ha hb,
  )

  insert_device-Appends :
      (d : Device) (depth : ℕ) (s : CrawlState)
      → Appends depth s.queue (insert_device call d depth s).1.queue
  insert_device-Appends d depth s = elim (Bool-cases (is_taken d.hostname s.devices)) [
    | inl taken ↦ rw taken (Appends-refl depth s.queue)
    | inr other ↦ rw other (elim (Bool-cases (contains d.id s.seen_devices)) [
      | inl seen ↦ rw seen (Appends-refl depth s.queue)
      | inr new ↦ rw new ((d, suc depth) ∷ [], refl, (refl, tt))
    ])
  ]

  add_guessed-Appends :
      (device : Device) (depth : ℕ) (n : LldpNeighbor) (mgmt : Text) (guess : Option Text)
      (s : CrawlState)
      → Appends depth s.queue (add_guessed call device depth n mgmt guess s).1.queue
  add_guessed-Appends device depth n mgmt none s = Appends-refl depth s.queue
  add_guessed-Appends device depth n mgmt (some adapter_id) s = insert_device-Appends _ depth s

  add_at-Appends :
      (device : Device) (depth : ℕ) (n : LldpNeighbor) (address : Option Text) (s : CrawlState)
      → Appends depth s.queue (add_at call device depth n address s).1.queue
  add_at-Appends device depth n none s = Appends-refl depth s.queue
  add_at-Appends device depth n (some mgmt) s = add_guessed-Appends device depth n mgmt _ s

  and_then-Appends :
      (depth : ℕ) (s t : CrawlState) (r : Result (Unit {0}))
      (f : CrawlState → Result (Unit {0}) × CrawlState)
      → Appends depth s.queue t.queue
      → Appends depth t.queue (f t).1.queue
      → Appends depth s.queue (and_then r (λ _. f) t).1.queue
  and_then-Appends depth s t (ok _) f h k = Appends-trans depth s.queue t.queue _ h k
  and_then-Appends depth s t (raised e) f h k = h

  add_all-Appends :
      (device : Device) (depth : ℕ) (ns : List LldpNeighbor) (s : CrawlState)
      → Appends depth s.queue (add_all call device depth ns s).1.queue
  unfolding add_all add_neighbor
  add_all-Appends device depth [] s = Appends-refl depth s.queue
  add_all-Appends device depth (n ∷ ns) s =
      let (r, t) = add_at call device depth n n.remote_mgmt_address s in
      and_then-Appends depth s t r (add_all call device depth ns)
        (add_at-Appends device depth n n.remote_mgmt_address s) (add_all-Appends device depth ns t)

  -- Behind the greatest depth nothing is added.
  abbrev Visited : ℕ → CrawlState → CrawlState → Type 0
  Visited depth s t =
      (more : List (Device × ℕ)) × (t.queue ≡ s.queue ++ more)
      × All (λ p. p.1 ≡ suc depth) more
      × (call.max_depth ≤ depth → more ≡ [])

  visit_with-Visited :
      (device : Device) (depth : ℕ) (answer : Result Adapter) (s : CrawlState)
      → Visited depth s (visit_with call device depth answer s).1
  unfolding follow
  visit_with-Visited device depth (raised e) s = ([], sym (append-nil s.queue), tt, λ deep. refl)
  visit_with-Visited device depth (ok adapter) s = elim (Bool-cases (leb call.max_depth depth)) [
    | inl deep ↦ rw deep ([], sym (append-nil s.queue), tt, λ d. refl)
    | inr shallow ↦
        let t = discover call device adapter s in
        let (more, e, h) =
          add_all-Appends device depth (new_neighbors device.id t.known_ips t.db.neighbors) t in
        rw shallow (more, e, h, λ deep. absurd (ground arith))
  ]

  visit-Visited :
      (device : Device) (depth : ℕ) (s : CrawlState) → Visited depth s (visit call device depth s).1
  unfolding visit
  visit-Visited device depth s =
      visit_with-Visited device depth (call.provider device call.credential) s

  -- A result that is there with enough fuel, and that no further fuel changes.
  abbrev pub EndsWith : CrawlState → Result (Unit {0}) × CrawlState → Type 0
  EndsWith s out = (fuel : ℕ) × ((enough : ℕ) → fuel ≤ enough → crawl_loop call enough s ≡ some out)

  abbrev pub Ends : CrawlState → Type 0
  Ends s = (out : Result (Unit {0}) × CrawlState) × EndsWith s out

  empty-run :
      (s : CrawlState) (enough : ℕ)
      → s.queue ≡ []
      → 1 ≤ enough
      → crawl_loop call enough s ≡ some (ok tt, s)
  unfolding crawl_loop
  empty-run s zero e h = absurd (omega arith)
  empty-run s (suc n) e h = rw e refl

  turn-run :
      (s : CrawlState) (device : Device) (depth : ℕ) (queue : List (Device × ℕ)) (n : ℕ)
      → s.queue ≡ (device, depth) ∷ queue
      → (let (r, t) = visit call device depth (record s { queue = queue }) in
          crawl_loop call (suc n) s ≡ carry_on call r t (crawl_loop call n t))
  unfolding crawl_loop
  turn-run s device depth queue n e = rw e refl

  carried-Ends :
      (s t : CrawlState) (r : Result (Unit {0}))
      → ((n : ℕ) → crawl_loop call (suc n) s ≡ carry_on call r t (crawl_loop call n t))
      → Ends t
      → Ends s
  carried-Ends s t (raised x) turn ends = ((raised x, t), (1, run))
    where
      run : (enough : ℕ) → 1 ≤ enough → crawl_loop call enough s ≡ some (raised x, t)
      run zero h = absurd (omega arith)
      run (suc n) h = turn n
  carried-Ends s t (ok _) turn (out, (fuel, ends)) = (out, (suc fuel, run))
    where
      run : (enough : ℕ) → suc fuel ≤ enough → crawl_loop call enough s ≡ some out
      run zero h = absurd (omega arith)
      run (suc n) h = turn n ∙ ends n (omega arith)

  -- The queue holds devices of one depth, and behind them those of the next.
  drain-Ends :
      (left : ℕ) (now next : List (Device × ℕ)) (depth : ℕ) (s : CrawlState)
      → call.max_depth ≤ depth + left
      → All (λ p. p.1 ≡ depth) now
      → All (λ p. p.1 ≡ suc depth) next
      → (call.max_depth ≤ depth → next ≡ [])
      → s.queue ≡ now ++ next
      → Ends s
  drain-Ends left [] [] depth s bound here there deepest e =
      ((ok tt, s), (1, λ enough h. empty-run s enough e h))
  drain-Ends zero [] (p ∷ next) depth s bound here there deepest e =
      absurd (cons≢nil (deepest (omega arith)))
  drain-Ends (suc left) [] (p ∷ next) depth s bound here there deepest e =
      drain-Ends left (p ∷ next) [] (suc depth) s (omega arith) there tt (λ deep. refl)
        (e ∙ sym (append-nil (p ∷ next)))
  drain-Ends left ((device, n) ∷ now) next depth s bound (same, here) there deepest e =
      let s1 : CrawlState = record s { queue = now ++ next } in
      let (r, t) = visit call device n s1 in
      let (more, appended, deeper, none_left) = visit-Visited device n s1 in
      carried-Ends s t r (λ fuel. turn-run s device n (now ++ next) fuel e)
        (drain-Ends left now (next ++ more) depth t bound here
          (All-append (λ p. p.1 ≡ suc depth) next more there
            (subst (λ d. All (λ p. p.1 ≡ suc d) more) same deeper))
          (λ deep. ap (λ l. l ++ more) (deepest deep) ∙ none_left (omega arith))
          (appended ∙ append_assoc now next more))

-- A crawl ends for any greatest depth, whatever the devices answer: from some amount of fuel on it
-- has a result, and the result does not depend on how much more there is.
pub crawl-Ends :
    (call : CrawlCall) (seeds : List Device) (s : CrawlState)
    → (out : Result (Unit {0}) × CrawlState) × (fuel : ℕ) × ((enough : ℕ)
        → fuel ≤ enough
        → crawl call enough seeds s ≡ some out)
unfolding crawl
crawl-Ends call seeds s =
    let s0 = start call seeds s in
    let (out, (fuel, ends)) =
      drain-Ends call call.max_depth s0.queue [] 0 s0 (omega arith) (seeds-depth seeds) tt
        (λ deep. refl) (sym (append-nil s0.queue)) in
    (out, fuel, ends)

-- ===== src/Planner/Serves.antt =====
-- src/fetech/planning.py: a plan leaves out nothing that was asked for.
use fetech.Prelude.{
  String, ◌=s=◌, ◌&&◌, ◌||◌, not, ◌≡◌, refl, sym, subst, Bool, true, false, some, List, [], ◌∷◌,
  arith, elem, All, In, All-In, if◌then◌else◌,
}
use fetech.Models.Request.{FetchRequest}
use fetech.Models.Plan.{PlanNode, FetchPlan}
use fetech.Planner.Result.{
  Result, ok, err, require, ◌>>=◌, ◌>>◌, outputs_denied, outputs_missing, bind-ok, require-ok,
}
use fetech.Planner.Registry.{Registry, Entry, get}
use fetech.Planner.Classify.{Urls, Family, classify_target}
use fetech.Planner.Stages.{permitted, is_empty}
use fetech.Planner.Plan.{
  Verdict, fine, denied, missing, checked_nodes, plan, canonical_request, validate_outputs,
  scheduled_ids, verdicts, denied_of, missing_of, output_verdict, entry_verdict, is_schedulable,
  is_embedded, is_only_clean_text, is_web,
}
use fetech.Planner.Permits.{Passes, plan-checked, checked_nodes-Passes}

-- The outputs that the plan need not schedule by a node of their own.
abbrev pub is_excused : FetchRequest → List PlanNode → Family → String → Entry → Bool
is_excused r ns family c e =
    ((c =s= "clean_text")
      && (is_only_clean_text r.output_requirements
          && (not (is_web family) || (r.intent =s= "crawl"))))
    || (not (is_schedulable e.kind) || is_embedded ns e)

fine-of :
    (vs : List Verdict)
    → is_empty (denied_of vs) ≡ true
    → is_empty (missing_of vs) ≡ true
    → All (λ v. v ≡ fine) vs
fine-of [] d m = tt
fine-of (fine ∷ vs) d m = (refl, fine-of vs d m)
fine-of (denied c ∷ vs) d m = absurd (ground arith)
fine-of (missing c ∷ vs) d m = absurd (ground arith)

verdicts-All :
    (g : Registry) (r : FetchRequest) (ns : List PlanNode) (family : Family)
    (scheduled cs : List String) (vs : List Verdict)
    → verdicts g r ns family scheduled cs ≡ ok vs
    → All (λ v. v ≡ fine) vs
    → All (λ c. output_verdict g r ns family scheduled c ≡ ok fine) cs
unfolding verdicts
verdicts-All g r ns family scheduled [] vs h f = tt
verdicts-All g r ns family scheduled (c ∷ cs) vs h f =
    let (v, e, k) =
      bind-ok (output_verdict g r ns family scheduled c)
        (λ v. verdicts g r ns family scheduled cs >>= λ rest. ok (v ∷ rest)) vs h in
    let (rest, e', k') =
      bind-ok (verdicts g r ns family scheduled cs) (λ rest. ok (v ∷ rest)) vs k in
    let same : v ∷ rest ≡ vs = cc in
    let f' : All (λ w. w ≡ fine) (v ∷ rest) = subst (λ ws. All (λ w. w ≡ fine) ws) (sym same) f in
    (rw (e, f'.0) refl, verdicts-All g r ns family scheduled cs rest e' f'.1)

validate_outputs-fine :
    (g : Registry) (r : FetchRequest) (ns : List PlanNode) (family : Family)
    → validate_outputs g r ns family ≡ ok tt
    → (scheduled : List String) × (scheduled_ids g ns ≡ ok scheduled)
      × All (λ c. output_verdict g r ns family scheduled c ≡ ok fine) r.output_requirements
unfolding validate_outputs
validate_outputs-fine g r ns family h =
    let (scheduled, e, k) = bind-ok (scheduled_ids g ns) (λ s. judge s) tt h in
    let (vs, e', k') =
      bind-ok (verdicts g r ns family scheduled r.output_requirements) (λ vs. report vs) tt k in
    let (x, d, k'') =
      bind-ok (require (is_empty (denied_of vs)) (outputs_denied (denied_of vs)))
        (λ _. require (is_empty (missing_of vs)) (outputs_missing (missing_of vs))) tt k' in
    (
      scheduled,
      e,
      verdicts-All g r ns family scheduled r.output_requirements vs e' (
          fine-of vs (require-ok (is_empty (denied_of vs)) (outputs_denied (denied_of vs)) x d)
            (require-ok (is_empty (missing_of vs)) (outputs_missing (missing_of vs)) tt k'')),
    )
  where
    report : List Verdict → Result (Unit {0})
    report vs =
        require (is_empty (denied_of vs)) (outputs_denied (denied_of vs))
        >> require (is_empty (missing_of vs)) (outputs_missing (missing_of vs))

    judge : List String → Result (Unit {0})
    judge s = verdicts g r ns family s r.output_requirements >>= report

-- A test that fails leaves the other branch.
else_of {ℓ} : {A : Type ℓ} (b : Bool) (x y z : A) → (if b then x else y) ≡ z → b ≡ false → y ≡ z
else_of true x y z h e = absurd (ground arith)
else_of false x y z h e = h

-- The last test of the loop.
judged :
    (g : Registry) (r : FetchRequest) (scheduled : List String) (id : String) (m : Result Bool)
    → (m >>= λ b. ok (if not b then denied id else if elem id scheduled then fine else missing id))
      ≡ ok fine
    → (elem id scheduled ≡ true) × (m ≡ ok true)
judged g r scheduled id (err x) h = absurd (ground arith)
judged g r scheduled id (ok false) h = absurd (ground arith)
judged g r scheduled id (ok true) h = (ground arith, refl)

-- A verdict of `fine` on an output that is not excused: it is permitted and scheduled.
entry_served :
    (g : Registry) (r : FetchRequest) (ns : List PlanNode) (scheduled : List String) (e : Entry)
    → entry_verdict g r ns scheduled e ≡ ok fine
    → not (is_schedulable e.kind) ≡ false
    → is_embedded ns e ≡ false
    → (elem e.id scheduled ≡ true) × (permitted g r e.id ≡ ok true)
unfolding entry_verdict
entry_served g r ns scheduled e h s m =
    let last : Result Verdict = permitted g r e.id >>= λ b.
    ok (if not b then denied e.id else if elem e.id scheduled then fine else missing e.id) in
    judged g r scheduled e.id (permitted g r e.id) (
      else_of (is_embedded ns e) (ok fine) last (ok fine)
        (else_of (not (is_schedulable e.kind)) (ok fine)
          (if is_embedded ns e then ok fine else last) (ok fine) h s)
        m)

served :
    (g : Registry) (r : FetchRequest) (ns : List PlanNode) (family : Family)
    (scheduled : List String) (c : String) (e : Entry)
    → output_verdict g r ns family scheduled c ≡ ok fine
    → get g c ≡ ok e
    → is_excused r ns family c e ≡ false
    → (elem e.id scheduled ≡ true) × (permitted g r e.id ≡ ok true)
unfolding output_verdict
served g r ns family scheduled c e h found n =
    let t : Bool =
      (c =s= "clean_text")
      && (is_only_clean_text r.output_requirements
          && (not (is_web family) || (r.intent =s= "crawl"))) in
    let (t', s, m) = none_holds t (not (is_schedulable e.kind)) (is_embedded ns e) n in
    let looked : (elim (get g c) [ err x ↦ ok fine | ok e ↦ entry_verdict g r ns scheduled e ])
        ≡ ok fine =
      else_of t (ok fine)
        (elim (get g c) [ err x ↦ ok fine | ok e ↦ entry_verdict g r ns scheduled e ]) (ok fine) h
        t' in
    entry_served g r ns scheduled e
      (subst (λ m. (elim m [ err x ↦ ok fine | ok e ↦ entry_verdict g r ns scheduled e ]) ≡ ok fine)
        found looked)
      s m
  where
    none_holds : (a b d : Bool) → (a || (b || d)) ≡ false → (a ≡ false) × (b ≡ false) × (d ≡ false)
    none_holds false false false h = (refl, refl, refl)
    none_holds true b d h = absurd (ground arith)
    none_holds false true d h = absurd (ground arith)
    none_holds false false true h = absurd (ground arith)

-- What a successful check of a request's nodes passed last.
checked_nodes-outputs :
    (g : Registry) (u : Urls) (r : FetchRequest) (ns : List PlanNode)
    → checked_nodes g u r ≡ ok ns
    → validate_outputs g r ns (classify_target u r.target r.output_requirements) ≡ ok tt
unfolding Passes
checked_nodes-outputs g u r ns h =
    let (nodes, (_, _, _, _, o)) = checked_nodes-Passes g u r ns h in o

-- In a plan for a request, an output of the canonical request that the registry knows as an entry `e`
-- and that is not excused (it is not schedulable, the browser's or the HTTP node produces it, or it
-- is the default `clean_text`) is permitted, and it is the canonical capability of some node.
pub plan-serves :
    (g : Registry) (u : Urls) (request : FetchRequest) (p : FetchPlan) (target c : String)
    (e : Entry)
    → u.normalize request.target ≡ some target
    → plan g u request ≡ ok p
    → In c (canonical_request g request target).output_requirements
    → get g c ≡ ok e
    → is_excused
        (canonical_request g request target)
        p.nodes
        (classify_target u target (canonical_request g request target).output_requirements)
        c
        e
      ≡ false
    → (scheduled : List String) × (scheduled_ids g p.nodes ≡ ok scheduled)
      × (elem e.id scheduled ≡ true)
      × (permitted g (canonical_request g request target) e.id ≡ ok true)
plan-serves g u request p target c e t h i found n =
    let r : FetchRequest = canonical_request g request target in
    let family : Family = classify_target u target r.output_requirements in
    let (checked, _) = plan-checked g u request p target t h in
    let (scheduled, s, a) =
      validate_outputs-fine g r p.nodes family (checked_nodes-outputs g u r p.nodes checked) in
    let (there, q) =
      served g r p.nodes family scheduled c e
        (All-In (λ c. output_verdict g r p.nodes family scheduled c ≡ ok fine) r.output_requirements
          c a i)
        found n in
    (scheduled, s, there, q)

-- ===== src/Sites/Rollbacks.antt =====
-- How many rollbacks of Sites/Settings.antt are under way.
use ventopanel.Base.{
  ℕ, zero, suc, ◌+◌, ◌≤◌, ◌≡◌, refl, sym, ap, ◌∙◌, inl, inr, Bool, true, false, if◌then◌else◌,
  Option, none, some, Option-cases, List, [], ◌∷◌, ◌++◌, append_assoc, append-nil, Text, truthy,
  trim, to_upper, to_lower, get_elem?, length, length-append, remove_at, All, arith,
}
use ventopanel.Api.Fetch.{Reply, Outcome, ok, threw}
use ventopanel.Api.Calls.Sites.{WebhookResponse}
use ventopanel.Sites.Settings.{
  SiteCall, upsert, delete_env, add_domain, remove_domain, rollback, regenerate, restart, Settings,
  send, handle_upsert_env, handle_add_alias, handle_rollback, is_rolling, upsert_done, alias_done,
  rollback_done, regenerate_done, Event, submitted_env, submitted_alias, clicked_delete_env,
  clicked_remove_alias, clicked_rollback, clicked_regenerate, clicked_restart, replied, finish,
  step, run,
}

abbrev pub hash_of : SiteCall → List Text
hash_of (rollback hash) = hash ∷ []
hash_of _ = []

-- The commits of the rollbacks among some requests.
abbrev pub hashes : List SiteCall → List Text
hashes [] = []
hashes (call ∷ calls) = hash_of call ++ hashes calls

-- How many rollbacks wait, if none has an empty hash.
abbrev pub OneRollback : Settings → Type 0
OneRollback s = length (hashes s.waiting) ≡ (if is_rolling s.rolling_back then 1 else 0)

hashes-append : (xs ys : List SiteCall) → hashes (xs ++ ys) ≡ hashes xs ++ hashes ys
hashes-append [] ys = refl
hashes-append (x ∷ xs) ys =
    ap (λ rest. hash_of x ++ rest) (hashes-append xs ys)
    ∙ sym (append_assoc (hash_of x) (hashes xs) (hashes ys))

length-hashes-send :
    (call : SiteCall) (s : Settings)
    → length (hashes (send call s).waiting) ≡ length (hashes s.waiting) + length (hash_of call)
length-hashes-send call s =
    ap length (
      hashes-append s.waiting (call ∷ [])
      ∙ ap (λ h. hashes s.waiting ++ h) (append-nil (hash_of call)))
    ∙ length-append (hashes s.waiting) (hash_of call)

length-hashes-remove_at :
    (calls : List SiteCall) (i : ℕ) (call : SiteCall)
    → get_elem? calls i ≡ some call
    → length (hashes calls) ≡ length (hash_of call) + length (hashes (remove_at i calls))
length-hashes-remove_at [] i call e = cc
length-hashes-remove_at (c ∷ calls) zero call e =
    let same : c ≡ call = cc in
    length-append (hash_of c) (hashes calls)
    ∙ ap (λ d. length (hash_of d) + length (hashes calls)) same
length-hashes-remove_at (c ∷ calls) (suc i) call e = omega (
  arith,
  length-append (hash_of c) (hashes calls),
  length-append (hash_of c) (hashes (remove_at i calls)),
  length-hashes-remove_at calls i call e,
)

if-le_one : (b : Bool) → (if b then 1 else 0) ≤ 1
if-le_one b = ground arith

if-OneRollback :
    (b : Bool) (s t : Settings)
    → (b ≡ true → OneRollback s)
    → (b ≡ false → OneRollback t)
    → OneRollback (if b then s else t)
if-OneRollback true s t h k = h refl
if-OneRollback false s t h k = k refl

other_removed :
    (call : SiteCall) (calls : List SiteCall) (i : ℕ)
    → get_elem? calls i ≡ some call
    → hash_of call ≡ []
    → length (hashes calls) ≡ length (hashes (remove_at i calls))
other_removed call calls i e none_of =
    omega (arith, length-hashes-remove_at calls i call e, ap length none_of)

rollback_done-none :
    (o : Outcome (Unit {0})) (s : Settings)
    → ((rollback_done o s).rolling_back ≡ none) × ((rollback_done o s).waiting ≡ s.waiting)
rollback_done-none (ok done) s = (refl, refl)
rollback_done-none (threw e) s = (refl, refl)

upsert_done-keeps :
    (o : Outcome (Unit {0})) (s : Settings)
    → ((upsert_done o s).rolling_back ≡ s.rolling_back) × ((upsert_done o s).waiting ≡ s.waiting)
upsert_done-keeps (ok done) s = (refl, refl)
upsert_done-keeps (threw e) s = (refl, refl)

alias_done-keeps :
    (o : Outcome (Unit {0})) (s : Settings)
    → ((alias_done o s).rolling_back ≡ s.rolling_back) × ((alias_done o s).waiting ≡ s.waiting)
alias_done-keeps (ok done) s = (refl, refl)
alias_done-keeps (threw e) s = (refl, refl)

regenerate_done-keeps :
    (o : Outcome Text) (s : Settings)
    → ((regenerate_done o s).rolling_back ≡ s.rolling_back)
      × ((regenerate_done o s).waiting ≡ s.waiting)
regenerate_done-keeps (ok token) s = (refl, refl)
regenerate_done-keeps (threw e) s = (refl, refl)

-- What a reply leaves of the requests that wait and of the rollback under way.
abbrev Leaves : SiteCall → Settings → Settings → Type 0
Leaves (rollback hash) s t = (t.rolling_back ≡ none) × (t.waiting ≡ s.waiting)
Leaves _ s t = (t.rolling_back ≡ s.rolling_back) × (t.waiting ≡ s.waiting)

-- The count of a state that a reply to another request left.
OneRollback-of_same :
    (i : ℕ) (s t : Settings)
    → length (hashes s.waiting) ≡ length (hashes (remove_at i s.waiting))
    → OneRollback s
    → (t.rolling_back ≡ s.rolling_back) × (t.waiting ≡ remove_at i s.waiting)
    → OneRollback t
OneRollback-of_same i s t e h (same, rest) =
    ap (λ calls. length (hashes calls)) rest
    ∙ sym e
    ∙ h
    ∙ sym (ap (λ hash. if is_rolling hash then 1 else 0) same)

OneRollback-of_Leaves :
    (call : SiteCall) (i : ℕ) (s t : Settings)
    → get_elem? s.waiting i ≡ some call
    → OneRollback s
    → Leaves call (record s { waiting = remove_at i s.waiting }) t
    → OneRollback t
OneRollback-of_Leaves (rollback hash) i s t e h (over, rest) =
    let left : length (hashes (remove_at i s.waiting)) ≡ 0 = omega (
      arith,
      length-hashes-remove_at s.waiting i (rollback hash) e,
      h,
      if-le_one (is_rolling s.rolling_back),
    ) in
    ap (λ calls. length (hashes calls)) rest
    ∙ left
    ∙ sym (ap (λ hash. if is_rolling hash then 1 else 0) over)
OneRollback-of_Leaves (upsert key value) i s t e h l =
    OneRollback-of_same i s t (other_removed (upsert key value) s.waiting i e refl) h l
OneRollback-of_Leaves (delete_env key) i s t e h l =
    OneRollback-of_same i s t (other_removed (delete_env key) s.waiting i e refl) h l
OneRollback-of_Leaves (add_domain domain) i s t e h l =
    OneRollback-of_same i s t (other_removed (add_domain domain) s.waiting i e refl) h l
OneRollback-of_Leaves (remove_domain domain) i s t e h l =
    OneRollback-of_same i s t (other_removed (remove_domain domain) s.waiting i e refl) h l
OneRollback-of_Leaves regenerate i s t e h l =
    OneRollback-of_same i s t (other_removed regenerate s.waiting i e refl) h l
OneRollback-of_Leaves restart i s t e h l =
    OneRollback-of_same i s t (other_removed restart s.waiting i e refl) h l

-- Each rollback that is clicked is to a commit with a hash.
abbrev pub HasHash : Event → Type 0
HasHash (clicked_rollback hash) = truthy hash ≡ true
HasHash _ = Unit {0}

send_other :
    (call : SiteCall) (s : Settings) → hash_of call ≡ [] → OneRollback s → OneRollback (send call s)
send_other call s e h = omega (arith, length-hashes-send call s, ap length e) ∙ h

module _ {R : Type 0} (parse : Text → Option R) (parse_webhook : Text → Option WebhookResponse)
    (id : Text) where
  finish-Leaves :
      (call : SiteCall) (reply : Option Reply) (s : Settings)
      → Leaves call s (finish parse parse_webhook id call reply s)
  unfolding finish
  finish-Leaves (upsert key value) reply s = upsert_done-keeps _ _
  finish-Leaves (delete_env key) reply s = (refl, refl)
  finish-Leaves (add_domain domain) reply s = alias_done-keeps _ _
  finish-Leaves (remove_domain domain) reply s = (refl, refl)
  finish-Leaves (rollback hash) reply s = rollback_done-none _ _
  finish-Leaves regenerate reply s = regenerate_done-keeps _ _
  finish-Leaves restart reply s = (refl, refl)

  step-OneRollback :
      (e : Event) (s : Settings)
      → HasHash e
      → OneRollback s
      → OneRollback (step parse parse_webhook id s e)
  unfolding step handle_upsert_env handle_add_alias handle_rollback
  step-OneRollback submitted_env s n h =
      if-OneRollback (truthy (to_upper (trim s.new_key))) _ s (λ t. send_other _ s refl h) (λ t. h)
  step-OneRollback submitted_alias s n h =
      if-OneRollback (truthy (to_lower (trim s.new_alias))) _ s (λ t. send_other _ s refl h)
        (λ t. h)
  step-OneRollback (clicked_delete_env key) s n h = send_other (delete_env key) s refl h
  step-OneRollback (clicked_remove_alias domain) s n h = send_other (remove_domain domain) s refl h
  step-OneRollback (clicked_rollback hash) s n h =
      if-OneRollback (is_rolling s.rolling_back) s _ (λ t. h)
        (λ t.
          let idle : length (hashes s.waiting) ≡ 0 = h ∙ ap (λ b. if b then 1 else 0) t in
          rw n (omega (arith, length-hashes-send (rollback hash) s, idle)))
  step-OneRollback clicked_regenerate s n h = send_other regenerate s refl h
  step-OneRollback clicked_restart s n h =
      if-OneRollback s.restarting s _ (λ t. h) (λ t. send_other restart s refl h)
  step-OneRollback (replied i reply) s n h = elim (Option-cases (get_elem? s.waiting i)) [
    | inl e ↦ rw (e, step) h
    | inr (call, e) ↦
        let rest : Settings = record s { waiting = remove_at i s.waiting } in
        rw (e, step)
          (OneRollback-of_Leaves call i s (finish parse parse_webhook id call reply rest) e h
            (finish-Leaves call reply rest))
  ]
  step-OneRollback e s n h = h

  -- Whatever is typed, clicked and replied, at most one rollback waits for its reply, and one does exactly while the page
  -- shows that it rolls back; if the commits have hashes.
  pub run-OneRollback :
      (es : List Event) (s : Settings)
      → All HasHash es
      → OneRollback s
      → OneRollback (run parse parse_webhook id s es)
  unfolding run
  run-OneRollback [] s n h = h
  run-OneRollback (e ∷ es) s (n, ns) h =
      run-OneRollback es (step parse parse_webhook id s e) ns (step-OneRollback e s n h)

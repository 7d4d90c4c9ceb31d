-- ===== src/Clients/Posted.antt =====
-- The request that an operation sends, once it is prepared (clients.go, lines 474 to 503 and 519 to 521).
use swf4go.Prelude.{String, true, ◌≡◌, refl, ap, ◌∙◌, ◌⊎◌, inl, inr, some, Bool-cases, []}
use swf4go.Prelude.Map.{lookup, insert}
use swf4go.Go.{
  GoError, text, Result, ok, err, ok-injective, Attempt, done, failed, returned, Attempt-cases,
}
use swf4go.Clients.Json.{Json, Request}
use swf4go.Clients.Http.{HttpRequest, Outside, ◌>>=◌, new_request, set_header}
use swf4go.Clients.Exchange.{Client, service, sign, dumped, prepared}

bind-eq-ok {κ ℓ} :
    {Later : Type κ} {Now : Type ℓ} (first : Result Now) (next : Now → Result Later) {last : Later}
    → (first >>= next) ≡ ok last
    → (value : Now) × (first ≡ ok value) × (next value ≡ ok last)
bind-eq-ok (err problem) next h = cc
bind-eq-ok (ok value) next h = (value, refl, h)

-- A failure that is no answer of the service.
abbrev pub IsLocal {ℓ} : {A : Type ℓ} → Result A → Type ℓ
IsLocal m = (e : GoError) → m ≡ err e → (t : String) × (e ≡ text t)

returned-IsLocal {ℓ} : {A : Type ℓ} (a : Attempt A) → IsLocal (returned a)
returned-IsLocal (done a) e h = cc
returned-IsLocal (failed t) e h = (t, cc)

bind-IsLocal {ℓ κ} :
    {A : Type ℓ} {B : Type κ} (m : Result A) (f : A → Result B)
    → IsLocal m
    → ((a : A) → IsLocal (f a))
    → IsLocal (m >>= f)
bind-IsLocal (ok a) f local next e h = next a e h
bind-IsLocal (err x) f local next e h = local e cc

returned-eq-ok {ℓ} : {A : Type ℓ} (a : Attempt A) {x : A} → returned a ≡ ok x → a ≡ done x
returned-eq-ok (done a) h = cc
returned-eq-ok (failed t) h = cc

module _ {ℓ} {W : Type ℓ} (outside : Outside W) (json : Json) (c : Client W) where
  -- A dump changes nothing, but can fail in debug mode.
  pub dumped_cases {κ} :
      {A : Type κ} (dump : A → Attempt String) (a : A)
      → (dumped outside json c dump a ≡ ok a)
        ⊎ ((c.debug ≡ true)
            × (t : String) × (dump a ≡ failed t)
            × (dumped outside json c dump a ≡ err (text t)))
  unfolding dumped
  dumped_cases dump a = elim (Bool-cases c.debug) [
    | inl on ↦ elim (Attempt-cases (dump a)) [
      | inl (d, e) ↦ inl (simp (on, e))
      | inr (t, e) ↦ inr (on, t, e, simp (on, e))
    ]
    | inr off ↦ inl (simp off)
  ]

  dumped-IsLocal {κ} :
      {A : Type κ} (dump : A → Attempt String) (a : A) → IsLocal (dumped outside json c dump a)
  dumped-IsLocal dump a x h = elim (dumped_cases dump a) [
    | inl e ↦ cc
    | inr (on, t, unread, e) ↦ (t, cc)
  ]

  dumped-eq-ok {κ} :
      {A : Type κ} (dump : A → Attempt String) (a : A) {b : A}
      → dumped outside json c dump a ≡ ok b
      → a ≡ b
  dumped-eq-ok dump a h = elim (dumped_cases dump a) [ inl e ↦ cc | inr (on, t, unread, e) ↦ cc ]

  -- The signed request that an operation sends: a POST of the encoded request to the service's address,
  -- dated, with the target and the type of its body.
  pub record Posted (svc url target content_type : String) (request : Request) (w : W)
      (req : HttpRequest) : Type 0 where
    pub body : String
    pub address : String
    pub unsigned : HttpRequest
    pub encoded : json.encode request ≡ done body
    pub addressed : outside.parse_url url ≡ done address
    pub posted : unsigned.method ≡ "POST"
    pub posted_to : unsigned.url ≡ address
    pub posted_body : unsigned.body ≡ body
    pub dated : lookup "Date" unsigned.header ≡ some (outside.date w)
    pub targeted : lookup "X-Amz-Target" unsigned.header ≡ some target
    pub typed : lookup "Content-Type" unsigned.header ≡ some content_type
    pub kept_alive : lookup "Connection" unsigned.header ≡ some "Keep-Alive"
    pub signed : outside.sign (service outside json c svc) c.keys unsigned ≡ done req

  module _ (svc url target content_type : String) (request : Request) (w : W) where
    pub prepared-Posted :
        {req : HttpRequest}
        → prepared outside json c svc url target content_type request w ≡ ok req
        → Posted svc url target content_type request w req
    unfolding prepared new_request set_header insert lookup
    prepared-Posted h =
        let (body, p, h1) = bind-eq-ok (returned (json.encode request)) _ h in
        let (r, q, h2) = bind-eq-ok (new_request outside "POST" url body) _ h1 in
        let (address, q1, q2) = bind-eq-ok (returned (outside.parse_url url)) _ q in
        let (s, p1, h3) = bind-eq-ok (returned (outside.sign _ c.keys _)) _ h2 in
        record {
          body = body;
          address = address;
          unsigned = set_header "Connection" "Keep-Alive" (
              set_header "Content-Type" content_type (
                set_header "X-Amz-Target" target (
                  set_header "Date" (outside.date w)
                    (record { method = "POST"; url = address; header = []; body = body }))));
          encoded = returned-eq-ok _ p;
          addressed = returned-eq-ok _ q1;
          posted = refl;
          posted_to = refl;
          posted_body = refl;
          dated = refl;
          targeted = refl;
          typed = refl;
          kept_alive = refl;
          signed =
              ap
                (λ x. outside.sign (service outside json c svc) c.keys (
                  set_header "Connection" "Keep-Alive" (
                    set_header "Content-Type" content_type
                      (set_header "X-Amz-Target" target (set_header "Date" (outside.date w) x)))))
                (ok-injective q2)
              ∙ returned-eq-ok _ p1
              ∙ ap done (dumped-eq-ok outside.dump_request_out s h3);
        }

    pub prepared-IsLocal : IsLocal (prepared outside json c svc url target content_type request w)
    unfolding prepared new_request
    prepared-IsLocal = bind-IsLocal (returned (json.encode request)) _ (returned-IsLocal _) (λ body.
        bind-IsLocal (new_request outside "POST" url body) _
          (bind-IsLocal (returned (outside.parse_url url)) _ (returned-IsLocal _) (λ _ e h. cc))
          (λ r.
            bind-IsLocal (sign outside json c svc _) _ (returned-IsLocal _)
              (λ s. dumped-IsLocal outside.dump_request_out s)))

-- ===== src/Webhook/Server/Answers.antt =====
-- The answers of the webhook's server with status 200: serveAdmission of internal/webhook/admission.go
-- behind the routes of internal/webhook/server.go.
use gopher_cni.Go.Text.{Text, codes, is_empty, text_eq, text_eq_iff}
use gopher_cni.Prelude.{
  Bool-cases, Option, Option-cases, false, inl, inr, none, refl, some, ◌↔◌, ◌≡◌, ◌⊎◌,
}
use gopher_cni.Webhook.Admission.{
  AdmissionRequest, AdmissionResponse, Codec, HttpRequest, answer, encoded, http_ok, read_body,
  serve_admission,
}
use gopher_cni.Webhook.Mutate.{mutate}
use gopher_cni.Webhook.Server.{
  Route, handle, health_handler, health_route, mutate_route, no_route, ready_handler, ready_route,
  route, serve, validate_route,
}
use gopher_cni.Webhook.Types.{WebhookConfig}
use gopher_cni.Webhook.Validate.{validate}
use gopher_cni.Wireguard.Parser.{Decoders}

-- A response of an admission: the encoding of what the handler says of the request in the body.
module _ (codec : Codec) (handler : AdmissionRequest → AdmissionResponse) where
  abbrev pub IsReviewOf : HttpRequest → Text → Type 0
  IsReviewOf r out =
      (body : Text) × (req : AdmissionRequest) × (r.body ≡ some body)
      × (is_empty body ≡ false)
      × (r.content_type ≡ codes "application/json")
      × (codec.decode_review body ≡ some (some req))
      × (codec.encode_review (record (handler req) { uid = req.uid }) ≡ some out)

  answered-ok :
      (body : Text) (o : Option (Option AdmissionRequest)) (out : Text)
      → codec.decode_review body ≡ o
      → answer codec handler o ≡ http_ok out
      → (req : AdmissionRequest) × (codec.decode_review body ≡ some (some req))
        × (codec.encode_review (record (handler req) { uid = req.uid }) ≡ some out)
  unfolding answer encoded
  answered-ok body none out e h = cc
  answered-ok body (some none) out e h = cc
  answered-ok body (some (some req)) out e h =
      elim (Option-cases (codec.encode_review (record (handler req) { uid = req.uid }))) [
        | inl n ↦ cc (rw n at h)
        | inr (text, w) ↦ (req, e, cc (w, rw w at h))
      ]

  body_given : (o : Option Text) → is_empty (read_body o) ≡ false → o ≡ some (read_body o)
  unfolding is_empty
  body_given none h = cc
  body_given (some body) h = refl

  serve_admission-ok :
      (r : HttpRequest) (out : Text)
      → serve_admission codec handler r ≡ http_ok out
      → IsReviewOf r out
  unfolding serve_admission
  serve_admission-ok r out h = elim (Bool-cases (is_empty (read_body r.body))) [
    | inl e ↦ cc (rw e at h)
    | inr full ↦ elim (Bool-cases (text_eq r.content_type (codes "application/json"))) [
      | inr e ↦ cc (rw (full, e) at h)
      | inl e ↦
          let body = read_body r.body in
          let (req, decoded, sent) =
            answered-ok body (codec.decode_review body) out refl (rw (full, e) at h) in
          (
            body,
            req,
            body_given r.body full,
            full,
            (text_eq_iff r.content_type (codes "application/json")).0 e,
            decoded,
            sent,
          )
    ]
  ]

  review-served :
      (r : HttpRequest) (out : Text)
      → IsReviewOf r out
      → serve_admission codec handler r ≡ http_ok out
  unfolding serve_admission answer encoded
  review-served r out (body, req, given, full, json, decoded, sent) =
      let same = (text_eq_iff r.content_type (codes "application/json")).1 json in
      rw (given, full, same, decoded, sent) refl

module _ (d : Decoders) (c : WebhookConfig) (codec : Codec) where
  -- What stands in a response with status 200, under each route.
  IsAnswer : Text → HttpRequest → Text → Type 0
  IsAnswer path r out =
      ((route path ≡ mutate_route) × IsReviewOf codec (mutate d c codec) r out)
      ⊎ ((route path ≡ validate_route) × IsReviewOf codec (validate d c codec) r out)
      ⊎ ((route path ≡ health_route) × (out ≡ codes "ok"))
      ⊎ ((route path ≡ ready_route) × (out ≡ codes "ready"))

  served-IsAnswer :
      (path : Text) (r : HttpRequest) (out : Text) (k : Route)
      → route path ≡ k
      → handle d c codec k r ≡ http_ok out
      → IsAnswer path r out
  unfolding IsAnswer handle health_handler ready_handler
  served-IsAnswer path r out mutate_route e q =
      inl (e, serve_admission-ok codec (mutate d c codec) r out q)
  served-IsAnswer path r out validate_route e q =
      inr (inl (e, serve_admission-ok codec (validate d c codec) r out q))
  served-IsAnswer path r out health_route e q = inr (inr (inl (e, cc)))
  served-IsAnswer path r out ready_route e q = inr (inr (inr (e, cc)))
  served-IsAnswer path r out no_route e q = cc

  IsAnswer-served :
      (path : Text) (r : HttpRequest) (out : Text)
      → IsAnswer path r out
      → handle d c codec (route path) r ≡ http_ok out
  unfolding IsAnswer handle health_handler ready_handler
  IsAnswer-served path r out (inl (e, review)) =
      rw e (review-served codec (mutate d c codec) r out review)
  IsAnswer-served path r out (inr (inl (e, review))) =
      rw e (review-served codec (validate d c codec) r out review)
  IsAnswer-served path r out (inr (inr (inl (e, same)))) = rw (e, same) refl
  IsAnswer-served path r out (inr (inr (inr (e, same)))) = rw (e, same) refl

  -- The server answers with status 200 exactly in these cases: under one of the two admission routes,
  -- a request whose body is not empty, is of the type application/json and decodes as a review with
  -- a request, and then with the encoding of what the handler of that route says of this request,
  -- under the request's own uid, where the response can be encoded; and under each of the two other
  -- routes, whatever the request, with its fixed text.
  pub serve-ok_iff :
      (path : Text) (r : HttpRequest) (out : Text)
      → (serve d c codec path r ≡ http_ok out) ↔ (
          ((route path ≡ mutate_route) × IsReviewOf codec (mutate d c codec) r out)
          ⊎ ((route path ≡ validate_route) × IsReviewOf codec (validate d c codec) r out)
          ⊎ ((route path ≡ health_route) × (out ≡ codes "ok"))
          ⊎ ((route path ≡ ready_route) × (out ≡ codes "ready")))
  unfolding serve IsAnswer
  serve-ok_iff path r out =
      (λ h. served-IsAnswer path r out (route path) refl h, λ w. IsAnswer-served path r out w)

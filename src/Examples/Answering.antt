-- ===== src/Examples/Answering.antt =====
-- A request to the webhook's server, and what it answers.
use gopher_cni.Examples.Fixtures.{decoders, webhook_config}
use gopher_cni.Examples.Serving.{codec, request}
use gopher_cni.Go.Text.{codes}
use gopher_cni.Prelude.{some, ◌↔◌, ◌≡◌, ◌⊎◌}
use gopher_cni.Webhook.Admission.{Codec, HttpRequest, http_ok}
use gopher_cni.Webhook.Mutate.{mutate}
use gopher_cni.Webhook.Server.Answers.{IsReviewOf, serve-ok_iff}
use gopher_cni.Webhook.Server.{
  health_route, mutate_route, ready_route, route, serve, validate_route,
}
use gopher_cni.Webhook.Validate.{validate}

abbrev review_codec : Codec
review_codec = record codec {
  decode_review = λ s. some (some request);
  encode_review = λ r. some (codes "review");
}

abbrev post : HttpRequest
post = record { body = some (codes "{}"); content_type = codes "application/json" }

serve-ok_iff_example :
    (serve decoders webhook_config review_codec (codes "/validate") post ≡ http_ok (codes "review"))
    ↔ (((route (codes "/validate") ≡ mutate_route)
          × IsReviewOf review_codec
              (mutate decoders webhook_config review_codec)
              post
              (codes "review"))
        ⊎ ((route (codes "/validate") ≡ validate_route)
            × IsReviewOf review_codec
                (validate decoders webhook_config review_codec)
                post
                (codes "review"))
        ⊎ ((route (codes "/validate") ≡ health_route) × (codes "review" ≡ codes "ok"))
        ⊎ ((route (codes "/validate") ≡ ready_route) × (codes "review" ≡ codes "ready")))
serve-ok_iff_example =
    serve-ok_iff decoders webhook_config review_codec (codes "/validate") post (codes "review")

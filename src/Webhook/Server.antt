-- ===== src/Webhook/Server.antt =====
-- internal/webhook/server.go: the routes of the webhook's server, its TLS configuration, and how
-- Run ends. The listener and the transport are not part of it.
pub mod Answers
use gopher_cni.Go.Int.Show.{show_int}
use gopher_cni.Actions.{Action}
use gopher_cni.Go.Text.{Text, codes, text_eq}
use gopher_cni.Prelude.{Option, Result, err, if◌then◌else◌, none, ok, some, ℕ, List, [], ◌∷◌, ◌>>=◌}
use gopher_cni.Webhook.Admission.{
  Codec, HttpRequest, HttpResponse, http_error, http_ok, serve_admission,
}
use gopher_cni.Webhook.Mutate.{mutate}
use gopher_cni.Webhook.Types.{WebhookConfig}
use gopher_cni.Webhook.Validate.{validate}
use gopher_cni.Wireguard.Parser.{Decoders}

pub data Route : Type 0 where
  mutate_route validate_route health_route ready_route no_route : Route

-- http.ServeMux with the four patterns of Run, none of which ends in a slash, on a clean path; another
-- path is redirected to its clean form
unfoldable pub route : Text → Route
route path =
    if text_eq path (codes "/mutate")
    then mutate_route
    else if text_eq path (codes "/validate")
    then validate_route
    else if text_eq path (codes "/health")
    then health_route
    else if text_eq path (codes "/ready")
    then ready_route
    else no_route

-- healthHandler and readyHandler
unfoldable pub health_handler : HttpRequest → HttpResponse
health_handler r = http_ok (codes "ok")

unfoldable pub ready_handler : HttpRequest → HttpResponse
ready_handler r = http_ok (codes "ready")

module _ (d : Decoders) (c : WebhookConfig) (codec : Codec) where
  handle : Route → HttpRequest → HttpResponse
  unfolding health_handler ready_handler
  handle mutate_route r = serve_admission codec (mutate d c codec) r
  handle validate_route r = serve_admission codec (validate d c codec) r
  handle health_route r = health_handler r
  handle ready_route r = ready_handler r
  handle no_route r = http_error 404

  -- the handler that Run gives the server
  unfoldable pub serve : Text → HttpRequest → HttpResponse
  unfolding handle
  serve path r = handle (route path) r

-- What the select of Run is given first: the end of the listener, or the cancelled context, with the
-- error of Shutdown if it has one.
pub data ServerEnd : Type 0 where
  listener_error : Text → ServerEnd
  cancelled : Option Text → ServerEnd

pub data RunError : Type 0 where
  tls_failed server_error shutdown_failed : Text → RunError

run_end : ServerEnd → Result RunError (Unit {0})
run_end (listener_error e) = err (server_error e)
run_end (cancelled (some e)) = err (shutdown_failed e)
run_end (cancelled none) = ok tt

-- tls.Config, with the numbers that TLS gives to versions and cipher suites
pub record TlsConfig : Type 0 where
  pub certificate : Text
  pub min_version : ℕ
  pub cipher_suites : List ℕ

-- What tls.LoadX509KeyPair reads from a certificate's and a key's path.
abbrev pub KeyPairs : Type 0
KeyPairs = Text → Text → Result Text Text

with_certificate : Text → TlsConfig
with_certificate cert = record {
  certificate = cert;
  min_version = 0x0303;
  cipher_suites = 0xC02F ∷ 0xC030 ∷ 0xC02B ∷ 0xC02C ∷ [];
}

-- loadTLSConfig
unfoldable pub load_tls_config : KeyPairs → WebhookConfig → Result Text TlsConfig
unfolding with_certificate
load_tls_config load c = do cert ← load c.tls_cert_path c.tls_key_path; ok (with_certificate cert)

-- http.Server, with the fields that Run sets; the times are in seconds. Its handler is `serve`.
pub record HttpServer : Type 0 where
  pub addr : Text
  pub tls_config : TlsConfig
  pub read_header_timeout : ℕ
  pub read_timeout : ℕ
  pub write_timeout : ℕ
  pub idle_timeout : ℕ

unfoldable pub new_http_server : WebhookConfig → TlsConfig → HttpServer
new_http_server c tls = record {
  addr = b':' ∷ show_int c.port;
  tls_config = tls;
  read_header_timeout = 10;
  read_timeout = 30;
  write_timeout = 30;
  idle_timeout = 60;
}

pub record Server : Type 0 where
  pub config : WebhookConfig
  pub http_server : Option HttpServer

-- NewServer
unfoldable pub new_server : WebhookConfig → Server
new_server c = record { config = c; http_server = none }

-- Run behind the loading of the TLS configuration
run_with : ServerEnd → Result Text TlsConfig → Action RunError Server (Unit {0})
unfolding run_end new_http_server
run_with event (err e) s = (err (tls_failed e), s)
run_with event (ok tls) s =
    (run_end event, record s { http_server = some (new_http_server s.config tls) })

-- (*Server).Run, with what its select is given
unfoldable pub run : KeyPairs → ServerEnd → Action RunError Server (Unit {0})
unfolding load_tls_config run_with
run load event s = run_with event (load_tls_config load s.config) s

-- (*Server).Shutdown, with the HTTP server's
unfoldable pub shutdown : (HttpServer → Result Text (Unit {0})) → Server → Result Text (Unit {0})
shutdown shut_down s = elim s.http_server [ none ↦ ok tt | some h ↦ shut_down h ]

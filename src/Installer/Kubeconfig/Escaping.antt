-- ===== src/Installer/Kubeconfig/Escaping.antt =====
-- The kubeconfig behind the escaping of html/template.
use gopher_cni.Go.Base64.{encode_base64, escape, escape_code, sextet}
use gopher_cni.Go.Text.{Text, codes, is_empty}
use gopher_cni.Installer.Config.{Config}
use gopher_cni.Installer.Kubeconfig.{
  ca_data_key, ca_file_of, create_kubeconfig_file, fill_template, kubeconfig_path, no_ca_file,
  read_existing_lem, render_kubeconfig, tls_config, write_kubeconfig,
}
use gopher_cni.Installer.Os.{File, Files, Os, kept_mode, put}
use gopher_cni.Installer.Os.Reliable.{IsReliable, write_lem}
use gopher_cni.Prelude.{
  Bool, [], and-true, arith, false, ltb, not, ok, refl, some, true, ℕ, ◌%◌, ◌&&◌, ◌*◌, ◌++◌, ◌+◌,
  ◌/◌, ◌<◌, ◌==◌, ◌||◌, ◌∷◌, ◌≡◌, ◌≢◌,
}

-- the code points that html/template replaces
unfoldable pub is_plain_code : ℕ → Bool
is_plain_code c =
    not (c == 0 || c == b'"' || c == b'&' || c == b'\'' || c == b'+' || c == b'<' || c == b'>')

unfoldable pub is_plain : Text → Bool
unfolding is_plain_code
is_plain [] = true
is_plain (c ∷ s) = is_plain_code c && is_plain s

escape_code-plain : (c : ℕ) → is_plain_code c ≡ true → escape_code c ≡ c ∷ []
unfolding escape_code is_plain_code
escape_code-plain c h = ground (arith, h)

escape-plain : (s : Text) → is_plain s ≡ true → escape s ≡ s
unfolding escape is_plain
escape-plain [] h = refl
escape-plain (c ∷ s) h =
    let p = and-true (is_plain_code c) (is_plain s) h in
    rw (escape_code-plain c p.0, escape-plain s p.1)

-- A byte below 128 that is neither '>' nor '~', as all of a PEM file are.
unfoldable pub is_pem_code : ℕ → Bool
is_pem_code c = ltb c 128 && not (c == b'>' || c == b'~')

unfoldable pub is_pem : Text → Bool
unfolding is_pem_code
is_pem [] = true
is_pem (c ∷ s) = is_pem_code c && is_pem s

sextet-plain : (n : ℕ) → n < 64 → n ≢ 62 → is_plain_code (sextet n) ≡ true
unfolding sextet is_plain_code
sextet-plain n lt ne = ground (arith, lt, ne)

is_plain-append : (s t : Text) → is_plain s ≡ true → is_plain t ≡ true → is_plain (s ++ t) ≡ true
unfolding is_plain
is_plain-append [] t h k = k
is_plain-append (c ∷ s) t h k =
    let p = and-true (is_plain_code c) (is_plain s) h in rw (p.0, is_plain-append s t p.1 k) refl

is_pem_code-lt : (c : ℕ) → is_pem_code c ≡ true → c < 128
unfolding is_pem_code
is_pem_code-lt c h = ground (arith, h)

is_pem_code-ne : (c : ℕ) → is_pem_code c ≡ true → c % 64 ≢ 62
unfolding is_pem_code
is_pem_code-ne c h e = ground (arith, h, e)

first_plain : (a : ℕ) → a < 128 → is_plain_code (sextet (a / 4)) ≡ true
first_plain a lt = sextet-plain (a / 4) (omega arith) (λ e. omega arith)

second_plain : (a b : ℕ) → b < 128 → is_plain_code (sextet (a % 4 * 16 + b / 16)) ≡ true
second_plain a b lt = sextet-plain (a % 4 * 16 + b / 16) (omega arith) (λ e. omega arith)

third_plain : (b c : ℕ) → c < 128 → is_plain_code (sextet (b % 16 * 4 + c / 64)) ≡ true
third_plain b c lt = sextet-plain (b % 16 * 4 + c / 64) (omega arith) (λ e. omega arith)

encode_base64-plain : (s : Text) → is_pem s ≡ true → is_plain (encode_base64 s) ≡ true
unfolding encode_base64 is_plain is_pem
encode_base64-plain [] h = refl
encode_base64-plain (a ∷ []) h =
    let p = and-true (is_pem_code a) true h in
    rw
      (
        first_plain a (is_pem_code-lt a p.0),
        sextet-plain (a % 4 * 16) (omega arith) (λ e. omega arith),
      )
      refl
encode_base64-plain (a ∷ b ∷ []) h =
    let p = and-true (is_pem_code a) (is_pem_code b && true) h in
    let q = and-true (is_pem_code b) true p.1 in
    rw
      (
        first_plain a (is_pem_code-lt a p.0),
        second_plain a b (is_pem_code-lt b q.0),
        sextet-plain (b % 16 * 4) (omega arith) (λ e. omega arith),
      )
      refl
encode_base64-plain (a ∷ b ∷ c ∷ s) h =
    let p = and-true (is_pem_code a) (is_pem_code b && (is_pem_code c && is_pem s)) h in
    let q = and-true (is_pem_code b) (is_pem_code c && is_pem s) p.1 in
    let r = and-true (is_pem_code c) (is_pem s) q.1 in
    rw
      (
        first_plain a (is_pem_code-lt a p.0),
        second_plain a b (is_pem_code-lt b q.0),
        third_plain b c (is_pem_code-lt c r.0),
        sextet-plain (c % 64) (omega arith) (is_pem_code-ne c r.0),
      )
      (encode_base64-plain s r.1)

key_plain : is_plain ca_data_key ≡ true
unfolding is_plain is_plain_code codes
key_plain = refl

module _ (os : Os) (reliable : IsReliable os) (cfg : Config) (token : Text) where
  -- On a system that refuses no call: with a host and a port, the certificate to be verified, and
  -- a CA file of ASCII text without '>' and '~', the kubeconfig is made with the fields of the
  -- configuration, the token and the CA's data as they are, where html/template replaces no
  -- character of the fields. A kubeconfig that was there keeps its permissions, a new one gets
  -- those of the configuration.
  pub create_kubeconfig_file-plain :
      (files : Files) (f : File)
      → is_empty cfg.k8s_service_host ≡ false
      → is_empty cfg.k8s_service_port ≡ false
      → cfg.k8s_skip_tls_verify ≡ false
      → files (ca_file_of os cfg) ≡ some f
      → is_pem f.content ≡ true
      → is_plain cfg.k8s_service_protocol ≡ true
      → is_plain cfg.k8s_service_host ≡ true
      → is_plain cfg.k8s_service_port ≡ true
      → is_plain token ≡ true
      → create_kubeconfig_file os cfg token files ≡ (
        ok (kubeconfig_path os cfg),
        put
            (kubeconfig_path os cfg)
            (record {
              content =
                  fill_template cfg.k8s_service_protocol cfg.k8s_service_host cfg.k8s_service_port
                    (ca_data_key ++ encode_base64 f.content)
                    token;
              mode = kept_mode os cfg.kubeconfig_mode (files (kubeconfig_path os cfg));
            })
            files,
      )
  unfolding create_kubeconfig_file write_kubeconfig tls_config render_kubeconfig
  create_kubeconfig_file-plain files f host port verified there pem protocol_plain host_plain
        port_plain token_plain =
      let tls_plain =
        is_plain-append ca_data_key (encode_base64 f.content) (key_plain)
          (encode_base64-plain f.content pem) in
      rw
        (
          host,
          port,
          verified,
          read_existing_lem os reliable no_ca_file (ca_file_of os cfg) files f there,
          escape-plain _ protocol_plain,
          escape-plain _ host_plain,
          escape-plain _ port_plain,
          escape-plain _ token_plain,
          escape-plain _ tls_plain,
          write_lem os reliable (kubeconfig_path os cfg) _ cfg.kubeconfig_mode files,
        )
        refl

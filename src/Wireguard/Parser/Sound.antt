-- ===== src/Wireguard/Parser/Sound.antt =====
-- What ParseConfig guarantees of its result.
use gopher_cni.Prelude.{
  ℕ, ◌+◌, ◌≡◌, ◌≢◌, sym, ap, ◌∙◌, subst, inl, inr, List, [], ◌∷◌, Bool-cases, ok, err, Result-cases,
  All,
}
use gopher_cni.Go.Text.{Text, codes, trim_space}
use gopher_cni.Go.Lines.{scan}
use gopher_cni.Wireguard.{Config}
use gopher_cni.Wireguard.Parser.{
  Decoders, State, peer_outside_section, at_line, initial, save_peer, parse_line, parse_lines,
  parse_config, finish,
}
use gopher_cni.Wireguard.Parser.Invariant.{HasV4, PortInRange, IsWf}
use gopher_cni.Wireguard.Parser.Steps.{parse_line-IsWf, parse_line_not_outside, save_peer-keeps}
use gopher_cni.Wireguard.Parser.Lines.{at_line-injective}

initial-IsWf : IsWf initial
unfolding codes
initial-IsWf = record {
  peer_open = λ e. absurd (empty_ne_peer e);
  addresses_v4 = tt;
  port_range = tt;
}
  where
    empty_ne_peer : codes "" ≢ codes "peer"
    empty_ne_peer e = cc

module _ (d : Decoders) where
  parse_lines-IsWf :
      (n : ℕ) (s s' : State) (lines : List Text)
      → parse_lines d n s lines ≡ ok s'
      → IsWf s
      → IsWf s'
  unfolding parse_lines
  parse_lines-IsWf n s s' [] h wf = subst IsWf (cc h) wf
  parse_lines-IsWf n s s' (line ∷ lines) h wf =
      elim (Result-cases (parse_line d s (trim_space line))) [
        | inl (u, step) ↦
            parse_lines-IsWf (n + 1) u s' lines (rw step at h)
              (parse_line-IsWf d s u (trim_space line) step wf)
        | inr (e, refused) ↦ cc (rw refused at h)
      ]

  parse_lines_not_outside :
      (n m : ℕ) (s : State) (lines : List Text)
      → IsWf s
      → parse_lines d n s lines ≢ err (at_line m peer_outside_section)
  unfolding parse_lines
  parse_lines_not_outside n m s [] wf h = cc
  parse_lines_not_outside n m s (line ∷ lines) wf h =
      elim (Result-cases (parse_line d s (trim_space line))) [
        | inl (u, step) ↦
            parse_lines_not_outside (n + 1) m u lines
              (parse_line-IsWf d s u (trim_space line) step wf) (rw step at h)
        | inr (e, refused) ↦ parse_line_not_outside d s (trim_space line) wf (
            refused
            ∙ ap err (at_line-injective (n + 1) m e peer_outside_section (rw refused at h)).1)
      ]

  -- ParseConfig never reports a peer's key outside a [Peer] section: its guard against that is
  -- unreachable, whatever the input.
  pub parse_config_not_outside :
      (input : Text) (n : ℕ) → parse_config d input ≢ err (at_line n peer_outside_section)
  unfolding parse_config finish
  parse_config_not_outside input n h =
      elim (Result-cases (parse_lines d 0 initial (scan input).lines)) [
        | inl (s, e) ↦ elim (Bool-cases (scan input).too_long) [
          | inl long ↦ cc (rw (e, long) at h)
          | inr fits ↦ cc (rw (e, fits) at h)
        ]
        | inr (e, bad) ↦
            let same : e ≡ at_line n peer_outside_section = cc (rw bad at h) in
            parse_lines_not_outside 0 n initial (scan input).lines initial-IsWf (bad ∙ ap err same)
      ]

  -- Of a configuration that ParseConfig returns, every address has an IPv4 form, and the port, if
  -- there is one, lies between 0 and 65535.
  pub parse_config_bounds :
      (input : Text) (c : Config)
      → parse_config d input ≡ ok c
      → All HasV4 c.addresses × PortInRange c.wg.listen_port
  unfolding parse_config finish
  parse_config_bounds input c h = elim (Result-cases (parse_lines d 0 initial (scan input).lines)) [
    | inr (e, bad) ↦ cc (rw bad at h)
    | inl (s, e) ↦ elim (Bool-cases (scan input).too_long) [
      | inl long ↦ cc (rw (e, long) at h)
      | inr fits ↦
          let wf = parse_lines-IsWf 0 initial s (scan input).lines e initial-IsWf in
          let last = save_peer s in
          let same : record { wg = last.wg; addresses = last.addresses; dns = last.dns } ≡ c =
            cc (rw (e, fits) at h) in
          let kept = save_peer-keeps s in
          (
            subst (λ (x : Config). All HasV4 x.addresses) same
                (subst (All HasV4) (sym kept.0) wf.addresses_v4),
            subst (λ (x : Config). PortInRange x.wg.listen_port) same
                (subst PortInRange (sym kept.1) wf.port_range),
          )
    ]
  ]

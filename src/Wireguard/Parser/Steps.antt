-- ===== src/Wireguard/Parser/Steps.antt =====
-- One line keeps the invariant, and never meets a peer's key outside a peer.
use gopher_cni.Prelude.{
  ◌≡◌, ◌≢◌, refl, sym, ◌∙◌, subst, inl, inr, Option, none, some, arith, Bool-cases, ok, err,
  Result-cases, bind-eq-ok, All,
}
use gopher_cni.Go.Text.{Text, codes, text_eq, text_eq_iff, trim_space, cut}
use gopher_cni.Wireguard.{PeerConfig}
use gopher_cni.Wireguard.Parser.{
  check_keepalive, Decoders, State, peer_outside_section, empty_peer, check_port,
  parse_interface_key, parse_peer_key, save_peer, section_name, enter_section, is_skipped,
  is_header, parse_pair, split_pair, peer_line, parse_line,
}
use gopher_cni.Wireguard.Parser.Invariant.{
  HasV4, PortInRange, IsWf, parse_interface_key-Keeps, parse_interface_key-HasV4,
  parse_interface_key-port, check_port-PortInRange,
}

pub save_peer-keeps :
    (s : State)
    → ((save_peer s).addresses ≡ s.addresses) × ((save_peer s).wg.listen_port ≡ s.wg.listen_port)
unfolding save_peer
save_peer-keeps s = ground arith

enter_section-IsWf : (s : State) (name : Text) → IsWf s → IsWf (enter_section s name)
unfolding enter_section
enter_section-IsWf s name wf = record {
  peer_open = λ e. (empty_peer, rw ((text_eq_iff name (codes "peer")).1 e));
  addresses_v4 = subst (All HasV4) (sym (save_peer-keeps s).0) wf.addresses_v4;
  port_range = subst PortInRange (sym (save_peer-keeps s).1) wf.port_range;
}

module _ (d : Decoders) where
  parse_interface_key-IsWf :
      (s s' : State) (key value : Text)
      → parse_interface_key d s key value ≡ ok s'
      → IsWf s
      → IsWf s'
  parse_interface_key-IsWf s s' key value h wf =
      let k = parse_interface_key-Keeps d s s' key value h in
      record {
        peer_open =
            λ e. let (p, found) = wf.peer_open (sym k.section_lem ∙ e) in (p, k.peer_lem ∙ found);
        addresses_v4 = parse_interface_key-HasV4 d s s' key value h wf.addresses_v4;
        port_range = elim (parse_interface_key-port d s s' key value h) [
          | inl same ↦ subst PortInRange (sym same) wf.port_range
          | inr (z, port, good, set) ↦
              subst PortInRange (sym set) (check_port-PortInRange z port good)
        ];
      }

  peer_line-IsWf :
      (s s' : State) (o : Option PeerConfig) (key value : Text)
      → peer_line d s o key value ≡ ok s'
      → IsWf s
      → IsWf s'
  unfolding peer_line
  peer_line-IsWf s s' none key value h wf = cc
  peer_line-IsWf s s' (some p) key value h wf =
      let (p', e, done) = bind-eq-ok (parse_peer_key d p key value) _ h in
      let after : record s { current_peer = some p' } ≡ s' = cc done in
      subst IsWf after (record {
        peer_open = λ _. (p', refl);
        addresses_v4 = wf.addresses_v4;
        port_range = wf.port_range;
      })

  parse_pair-IsWf :
      (s s' : State) (key value : Text) → parse_pair d s key value ≡ ok s' → IsWf s → IsWf s'
  unfolding parse_pair
  parse_pair-IsWf s s' key value h wf = elim (Bool-cases (text_eq s.section (codes "interface"))) [
    | inl e ↦ parse_interface_key-IsWf s s' key value (rw e at h) wf
    | inr ne ↦ elim (Bool-cases (text_eq s.section (codes "peer"))) [
      | inl e ↦ peer_line-IsWf s s' s.current_peer key value (rw (ne, e) at h) wf
      | inr ne' ↦ cc (rw (ne, ne') at h)
    ]
  ]

  split_pair-IsWf :
      (s s' : State) (parts : Text × Option Text) → split_pair d s parts ≡ ok s' → IsWf s → IsWf s'
  unfolding split_pair
  split_pair-IsWf s s' (key, none) h wf = cc
  split_pair-IsWf s s' (key, some value) h wf =
      parse_pair-IsWf s s' (trim_space key) (trim_space value) h wf

  -- A line that is taken keeps the invariant.
  pub parse_line-IsWf :
      (s s' : State) (line : Text) → parse_line d s line ≡ ok s' → IsWf s → IsWf s'
  unfolding parse_line
  parse_line-IsWf s s' line h wf = elim (Bool-cases (is_skipped line)) [
    | inl e ↦ subst IsWf (cc (rw e at h)) wf
    | inr ne ↦ elim (Bool-cases (is_header line)) [
      | inl e ↦ subst IsWf (cc (rw (ne, e) at h)) (enter_section-IsWf s (section_name line) wf)
      | inr ne' ↦ split_pair-IsWf s s' (cut b'=' line) (rw (ne, ne') at h) wf
    ]
  ]

  interface_not_outside :
      (s : State) (key value : Text) → parse_interface_key d s key value ≢ err peer_outside_section
  unfolding parse_interface_key check_port
  interface_not_outside s key value h = ground arith

  peer_not_outside :
      (p : PeerConfig) (key value : Text) → parse_peer_key d p key value ≢ err peer_outside_section
  unfolding parse_peer_key check_keepalive
  peer_not_outside p key value h = ground arith

  peer_line_not_outside :
      (s : State) (p : PeerConfig) (key value : Text)
      → peer_line d s (some p) key value ≢ err peer_outside_section
  unfolding peer_line
  peer_line_not_outside s p key value h = elim (Result-cases (parse_peer_key d p key value)) [
    | inl (p', e) ↦ cc (rw e at h)
    | inr (e, bad) ↦ peer_not_outside p key value (bad ∙ cc (rw bad at h))
  ]

  parse_pair_not_outside :
      (s : State) (key value : Text) → IsWf s → parse_pair d s key value ≢ err peer_outside_section
  unfolding parse_pair peer_line
  parse_pair_not_outside s key value wf h =
      elim (Bool-cases (text_eq s.section (codes "interface"))) [
        | inl e ↦ interface_not_outside s key value (rw e at h)
        | inr ne ↦ elim (Bool-cases (text_eq s.section (codes "peer"))) [
          | inl e ↦
              let (p, found) = wf.peer_open ((text_eq_iff s.section (codes "peer")).0 e) in
              peer_line_not_outside s p key value (rw (ne, e, found) at h)
          | inr ne' ↦ cc (rw (ne, ne') at h)
        ]
      ]

  split_pair_not_outside :
      (s : State) (parts : Text × Option Text)
      → IsWf s
      → split_pair d s parts ≢ err peer_outside_section
  unfolding split_pair
  split_pair_not_outside s (key, none) wf h = cc
  split_pair_not_outside s (key, some value) wf h =
      parse_pair_not_outside s (trim_space key) (trim_space value) wf h

  -- In a state that keeps the invariant no line is a peer's key outside a peer.
  pub parse_line_not_outside :
      (s : State) (line : Text) → IsWf s → parse_line d s line ≢ err peer_outside_section
  unfolding parse_line
  parse_line_not_outside s line wf h = elim (Bool-cases (is_skipped line)) [
    | inl e ↦ cc (rw e at h)
    | inr ne ↦ elim (Bool-cases (is_header line)) [
      | inl e ↦ cc (rw (ne, e) at h)
      | inr ne' ↦ split_pair_not_outside s (cut b'=' line) wf (rw (ne, ne') at h)
    ]
  ]

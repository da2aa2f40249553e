-- ===== src/Wireguard/Parser/Peers.antt =====
-- The number of peers that ParseConfig returns.
use gopher_cni.Prelude.{
  ℕ, ◌+◌, ◌≡◌, refl, sym, ap, ◌∙◌, inl, inr, Bool, not, ◌&&◌, Option, none, some, List, [], ◌∷◌,
  arith, length, length-append, Bool-cases, if◌then◌else◌, Option-cases, ok, Result-cases,
  bind-eq-ok,
}
use gopher_cni.Go.Text.{Text, codes, text_eq, trim_space, cut}
use gopher_cni.Go.Lines.{scan}
use gopher_cni.Wireguard.{PeerConfig, Config}
use gopher_cni.Wireguard.Parser.{
  Decoders, State, initial, save_peer, section_name, enter_section, is_skipped, is_header,
  parse_peer_key, peer_line, parse_pair, split_pair, parse_line, parse_lines, parse_config, finish,
}
use gopher_cni.Wireguard.Parser.Invariant.{parse_interface_key-Keeps}

-- A line that opens a peer: a section header whose name is "peer", in whatever case.
pub is_peer_header : Text → Bool
is_peer_header line =
    not (is_skipped line) && is_header line && text_eq (section_name line) (codes "peer")

pub peer_headers : List Text → ℕ
peer_headers [] = 0
peer_headers (line ∷ lines) =
    (if is_peer_header (trim_space line) then 1 else 0) + peer_headers lines

one_if_some : Option PeerConfig → ℕ
one_if_some none = 0
one_if_some (some p) = 1

-- the peers saved, and the one that is being built
peers_so_far : State → ℕ
unfolding one_if_some
peers_so_far s = length s.wg.peers + one_if_some s.current_peer

save_peer-peers :
    (s : State)
    → (length (save_peer s).wg.peers ≡ peers_so_far s) × ((save_peer s).current_peer ≡ none)
unfolding save_peer peers_so_far
save_peer-peers s = elim (Option-cases s.current_peer) [
  | inl e ↦ rw e (omega arith, refl)
  | inr (p, e) ↦ rw e (length-append s.wg.peers (p ∷ []), refl)
]

enter_section-peers :
    (s : State) (name : Text)
    → peers_so_far (enter_section s name)
      ≡ (if text_eq name (codes "peer") then 1 else 0) + peers_so_far s
unfolding enter_section peers_so_far
enter_section-peers s name =
    let (saved, closed) = save_peer-peers s in
    elim (Bool-cases (text_eq name (codes "peer"))) [
      | inl e ↦ rw e (omega (arith, saved))
      | inr e ↦ rw (e, closed) (omega (arith, saved))
    ]

module _ (d : Decoders) where
  peer_line-peers :
      (s s' : State) (o : Option PeerConfig) (key value : Text)
      → s.current_peer ≡ o
      → peer_line d s o key value ≡ ok s'
      → peers_so_far s' ≡ peers_so_far s
  unfolding peer_line peers_so_far
  peer_line-peers s s' none key value e h = cc
  peer_line-peers s s' (some p) key value e h =
      let (p', e', done) = bind-eq-ok (parse_peer_key d p key value) _ h in
      let after : record s { current_peer = some p' } ≡ s' = cc done in rw (← after, e)

  parse_pair-peers :
      (s s' : State) (key value : Text)
      → parse_pair d s key value ≡ ok s'
      → peers_so_far s' ≡ peers_so_far s
  unfolding parse_pair peers_so_far
  parse_pair-peers s s' key value h = elim (Bool-cases (text_eq s.section (codes "interface"))) [
    | inl e ↦
        let k = parse_interface_key-Keeps d s s' key value (rw e at h) in
        rw (k.peer_lem, k.peers_lem)
    | inr ne ↦ elim (Bool-cases (text_eq s.section (codes "peer"))) [
      | inl e ↦ peer_line-peers s s' s.current_peer key value refl (rw (ne, e) at h)
      | inr ne' ↦ cc (rw (ne, ne') at h)
    ]
  ]

  split_pair-peers :
      (s s' : State) (parts : Text × Option Text)
      → split_pair d s parts ≡ ok s'
      → peers_so_far s' ≡ peers_so_far s
  unfolding split_pair
  split_pair-peers s s' (key, none) h = cc
  split_pair-peers s s' (key, some value) h =
      parse_pair-peers s s' (trim_space key) (trim_space value) h

  parse_line-peers :
      (s s' : State) (line : Text)
      → parse_line d s line ≡ ok s'
      → peers_so_far s' ≡ (if is_peer_header line then 1 else 0) + peers_so_far s
  unfolding parse_line is_peer_header
  parse_line-peers s s' line h = elim (Bool-cases (is_skipped line)) [
    | inl e ↦
        rw e (ap peers_so_far (sym (let same : s ≡ s' = cc (rw e at h) in same)) ∙ omega arith)
    | inr ne ↦ elim (Bool-cases (is_header line)) [
      | inl e ↦
          let same : enter_section s (section_name line) ≡ s' = cc (rw (ne, e) at h) in
          rw (ne, e, ← same) (enter_section-peers s (section_name line))
      | inr ne' ↦
          rw (ne, ne') (split_pair-peers s s' (cut b'=' line) (rw (ne, ne') at h) ∙ omega arith)
    ]
  ]

  parse_lines-peers :
      (n : ℕ) (s s' : State) (lines : List Text)
      → parse_lines d n s lines ≡ ok s'
      → peers_so_far s' ≡ peer_headers lines + peers_so_far s
  unfolding parse_lines peer_headers
  parse_lines-peers n s s' [] h =
      let same : s ≡ s' = cc h in ap peers_so_far (sym same) ∙ omega arith
  parse_lines-peers n s s' (line ∷ lines) h =
      elim (Result-cases (parse_line d s (trim_space line))) [
        | inl (u, step) ↦
            let later = parse_lines-peers (n + 1) u s' lines (rw step at h) in
            omega (arith, later, parse_line-peers s u (trim_space line) step)
        | inr (e, refused) ↦ cc (rw refused at h)
      ]

  -- A configuration that ParseConfig returns has one peer for each [Peer] header of its input, the
  -- last one included.
  pub parse_config-peers :
      (input : Text) (c : Config)
      → parse_config d input ≡ ok c
      → length c.wg.peers ≡ peer_headers (scan input).lines
  unfolding parse_config finish
  parse_config-peers input c h = elim (Result-cases (parse_lines d 0 initial (scan input).lines)) [
    | inr (e, bad) ↦ cc (rw bad at h)
    | inl (s, e) ↦ elim (Bool-cases (scan input).too_long) [
      | inl long ↦ cc (rw (e, long) at h)
      | inr fits ↦
          let last = save_peer s in
          let same : record { wg = last.wg; addresses = last.addresses; dns = last.dns } ≡ c =
            cc (rw (e, fits) at h) in
          let counted = parse_lines-peers 0 initial s (scan input).lines e in
          ap (λ (x : Config). length x.wg.peers) (sym same)
          ∙ (save_peer-peers s).0
          ∙ counted
          ∙ unfold peers_so_far in omega arith
    ]
  ]

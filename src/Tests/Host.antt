-- ===== src/Tests/Host.antt =====
-- A host to evaluate the code on: the functions of the kernel with concrete bodies that have the
-- laws, and packets and blocks of a small session.
use dysco.Base.{
  ◌≡◌, ◌∙◌, sym, ap, inl, inr, List, ◌∷◌, Bool-cases, ℕ, ◌-◌, ◌%◌, refl, arith, Bool, true, false,
  Option, none, some, [], leb, ◌==◌, ==_iff, if◌then◌else◌, sub32,
}
use dysco.Types.{
  TcpSession, session_eq, eq_of_session_eq, CbOut, CbIn, CbReconfig, Skb, checksum_none, tcp,
  one_path, syn,
}
use dysco.Heap.{World, Hashes}
use dysco.Kernel.{Kernel, KernelLaws, Rhashtable, RhashtableLaws, TcpSock}

abbrev pub client_session : TcpSession
client_session = record { sip = 16777226; dip = 33554442; sport = 4135; dport = 20480 }

abbrev pub sub_session : TcpSession
sub_session = record { sip = 16777226; dip = 50331658; sport = 65535; dport = 4135 }

abbrev pub out_block : CbOut
out_block = record {
  dcb_in = none;
  super = client_session;
  sub = sub_session;
  in_iseq = 0;
  in_iack = 0;
  out_iseq = 0;
  out_iack = 0;
  ack_delta = 0;
  seq_delta = 0;
  seq_cutoff = 0;
  ack_cutoff = 0;
  my_tp = none;
  other_tp = none;
  sc = none;
  other_path = none;
  ts_in = 0;
  ts_out = 0;
  ts_delta = 0;
  tsr_in = 0;
  tsr_out = 0;
  tsr_delta = 0;
  dysco_tag = 0;
  ws_in = 0;
  ws_out = 0;
  ws_delta = 0;
  nh_mac = 0;
  state = one_path;
  old_path = false;
  valid_ack_cut = false;
  use_np_seq = false;
  use_np_ack = false;
  state_t = false;
  free_sc = false;
  ack_add = false;
  seq_add = false;
  sack_ok = false;
  ts_ok = false;
  ts_add = false;
  ws_ok = false;
  tsr_add = false;
  tag_ok = false;
  ack_ctr = 0;
}

abbrev pub in_block : CbIn
in_block = record {
  dcb_out = none;
  sub = sub_session;
  super = client_session;
  in_iseq = 0;
  in_iack = 0;
  out_iseq = 0;
  out_iack = 0;
  ack_delta = 0;
  seq_delta = 0;
  ts_in = 0;
  ts_out = 0;
  ts_delta = 0;
  tsr_in = 0;
  tsr_out = 0;
  tsr_delta = 0;
  ws_in = 0;
  ws_out = 0;
  ws_delta = 0;
  two_paths = false;
  ack_add = false;
  seq_add = false;
  sack_ok = false;
  ts_ok = false;
  ts_add = false;
  tsr_add = false;
  ws_ok = false;
  skb_iif = 0;
}

abbrev pub rcb : CbReconfig
rcb = record {
  super = client_session;
  left_ss = client_session;
  right_ss = client_session;
  sub_out = sub_session;
  sub_in = sub_session;
  old_dcb = none;
  new_dcb = none;
  rec_begin = 0;
  rec_end = 0;
  left_iseq = 0;
  left_iack = 0;
  left_its = 0;
  left_itsr = 0;
  left_iws = 0;
  left_iwsr = 0;
  nh_mac = 0;
  sack_ok = 0;
  rec_done = false;
}

-- A SYN of the session with no options and no data; `at_seq` and the like vary it.
abbrev pub packet : Skb
packet = record {
  eth = record { h_dest = 1; h_source = 2; is_ip = true };
  ip = record {
    ihl = 5;
    tot_len = 10240;
    protocol = tcp;
    check = 48879;
    saddr = 16777226;
    daddr = 33554442;
  };
  th = record {
    source = 4135;
    dest = 20480;
    seq = 3858759680;
    ack_seq = 0;
    doff = 5;
    fin = false;
    syn = true;
    ack = false;
    window = 65535;
    check = 0;
  };
  body = [];
  uh = record { source = 0; dest = 0; len = 0 };
  cmsg = record {
    mtype = syn;
    super = client_session;
    left_ss = client_session;
    right_ss = client_session;
    left_a = 0;
    right_a = 0;
    sport = 0;
    dport = 0;
    left_iseq = 0;
    left_iack = 0;
    seq_cutoff = 0;
    left_its = 0;
    left_itsr = 0;
    left_iws = 0;
    left_iwsr = 0;
    sack_ok = 0;
    semantic = 0;
  };
  udp_check = 0;
  len = 40;
  tailroom = 200;
  ip_summed = checksum_none;
  csum = 0;
  csum_valid = false;
  skb_iif = 1;
  dev = 1;
  dev_addr = 3;
  loopback = false;
}

-- Tables as functions from keys.
abbrev find : {K : Type 0} → (K → K → Bool) → List (K × ℕ) → K → Option ℕ
find eq [] j = none
find eq ((k, p) ∷ t) j = if eq k j then some p else find eq t j

abbrev without : {K : Type 0} → (K → K → Bool) → K → List (K × ℕ) → List (K × ℕ)
without eq k [] = []
without eq k ((j, p) ∷ t) = let rest = without eq k t in if eq k j then rest else (j, p) ∷ rest

abbrev values : {K : Type 0} → List (K × ℕ) → List ℕ
values [] = []
values ((k, p) ∷ t) = p ∷ values t

abbrev pub table : {K : Type 0} → (K → K → Bool) → Rhashtable K
table {K} eq = record {
  T = List (K × ℕ);
  lookup = find eq;
  insert = λ t k p. (k, p) ∷ t;
  remove = λ t k p. without eq k t;
  entries = values;
}

abbrev pub socket : TcpSock
socket = record {
  rcv_wscale = 7;
  rcv_nxt = 1000;
  copied_seq = 900;
  snd_wnd = 0;
  snd_nxt = 0;
  snd_una = 0;
  max_window = 0;
}

instance abbrev pub host : Kernel
host = record {
  sessions = table session_eq;
  tags = table (λ a b. a == b);
  before = λ a b. leb 2147483648 (sub32 a b);
  after = λ a b. leb 2147483648 (sub32 b a);
  csum_fold = λ n. 65535 - n % 65535;
  csum_unfold = λ n. n;
  ip_fast_csum = λ _. 0;
  csum_segment = λ _ _ _. 0;
  csum_bytes = λ _ _. 0;
  csum_tcpudp_nofold = λ _ _ _ _. 0;
  tcp_v4_check = λ _ _ _. 0;
  inet_csum_replace4 = λ s _ _ _. s;
  inet_csum_replace2 = λ s _ _ _. s;
  ip_route_output_key = λ _ _. record { fl_saddr = 0; nexthop = none };
  neigh_lookup = λ _ _. none;
  inet_lookup_established = λ _ _. none;
  sockets = λ _. socket;
  is_valid_ether_addr = λ _. true;
  skb_share_check = λ s. some s;
  stale_out = out_block;
  stale_in = in_block;
  stale_rcb = rcb;
  stale_pos = 0;
}

-- A namespace without sessions, and the host's memory with a reconfiguration under way: block 0 is
-- the old path's, block 1 the new path's.
abbrev pub empty_hashes : Hashes
empty_hashes = record {
  policies = [];
  dysco_tag = 0;
  hash_out = [];
  hash_in = [];
  hash_pen = [];
  hash_pen_tag = [];
  hash_reconfig = [];
}

abbrev pub world : World
world = record {
  outs = [];
  ins = [];
  rcbs = [];
  dh = empty_hashes;
  alloc_ports = 0x2710ffff;
  dev_measurement = none;
  ctx = record { skb = packet; tcp_sack_rewrites = 0; tcp_ts_rewrites = 0; tcp_tsr_rewrites = 0 };
  grants = [];
  now = 0;
}

module _ {K : Type 0} (eq : K → K → Bool) (same : (j k : K) → eq j k ≡ true → j ≡ k) where
  find-without :
      (t : List (K × ℕ)) (k j : K) → eq k j ≡ false → find eq (without eq k t) j ≡ find eq t j
  find-without [] k j e = refl
  find-without ((i, p) ∷ t) k j e = elim (Bool-cases (eq k i)) [
    | inl h ↦ rw h (find-without t k j e ∙ rw (sym (ap (λ x. eq x j) (same k i h)) ∙ e) refl)
    | inr h ↦ rw h (ap (λ o. if eq i j then some p else o) (find-without t k j e))
  ]

  pub table_laws : RhashtableLaws eq (table eq)
  table_laws = record {
    lookup-insert = λ t k j p e. refl;
    lookup-remove = λ t k j p e. find-without t k j e;
    entries-insert = λ t k p q e. refl;
  }

pub host_laws : KernelLaws host
host_laws = record {
  sessions_laws = table_laws session_eq eq_of_session_eq;
  tags_laws = table_laws ◌==◌ (λ j k. (==_iff j k).0);
  before_lem = λ a b. refl;
  after_lem = λ a b. refl;
  csum_unfold_lem = λ n. refl;
  csum_fold-lt = λ n. omega arith;
  csum_fold_lem = λ n lt. omega arith;
  replace4_same = λ s from to ph. record {
    th_same = refl;
    ip_same = refl;
    eth_same = refl;
    body_same = refl;
    summed_same = refl;
    dev_addr_same = refl;
  };
  replace2_same = λ s from to ph. record {
    th_same = refl;
    ip_same = refl;
    eth_same = refl;
    body_same = refl;
    summed_same = refl;
    dev_addr_same = refl;
  };
}

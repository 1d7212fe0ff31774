-- ===== src/Server/Pipeline.antt =====
-- The loop of `process_conn` in net/server.c over the commands that have arrived.
use void_cache.Prelude.{
  ℕ, zero, suc, ◌-◌, ◌≤◌, ◌<◌, ◌≡◌, ◌∙◌, refl, sym, ap, arith, List, [], ◌∷◌, ◌++◌, Option, some,
  Bool, true, false, length, drop, leb, ◌==◌, if◌then◌else◌, Bool-cases, inl, inr, map,
  append_assoc, length-append, length-drop, drop-append, leb→le,
}
use void_cache.Proto.{Buf, vc_buf_reset, vc_buf_consume}
use void_cache.Proto.Decimal.{decimal}
use void_cache.Proto.Parse.{Parsed, more, err, ok, upper_cmd, resp_parse_command}
use void_cache.Proto.Parse.Bounds.{Answers, resp_parse_command-Answers}
use void_cache.Proto.Parse.Whole.{
  AreShort, arg_of, bulk_then, bulks_then, command_then, resp_parse_command-whole,
}
use void_cache.Commands.Guard.{Session}
use void_cache.Commands.Reply.{Host}
use void_cache.Commands.Table.{vc_dispatch}
use void_cache.Server.{ServeEnd, serve_parsed, serve}

length-vc_buf_consume : (b : Buf) (n : ℕ) → length (vc_buf_consume b n).bytes ≡ length b.bytes - n
unfolding vc_buf_consume vc_buf_reset
length-vc_buf_consume b n = elim (Bool-cases (leb (length b.bytes) n)) [
  | inl whole ↦ rw whole (ground arith)
  | inr part ↦ rw part (length-drop n b.bytes)
]

abbrev Ends : Option (ServeEnd × Session × Buf) → Type 0
Ends o = (r : ServeEnd × Session × Buf) × (o ≡ some r)

if_Ends :
    (c : Bool) (x : ServeEnd × Session × Buf) (o : Option (ServeEnd × Session × Buf))
    → Ends o
    → Ends (if c then some x else o)
if_Ends true x o e = (x, refl)
if_Ends false x o e = e

serve_parsed-Ends :
    (h : Host) (s : Session) (b : Buf) (next : Session → Buf → Option (ServeEnd × Session × Buf))
    (p : Parsed)
    → Answers b.bytes p
    → ((t : Session) (b' : Buf) → length b'.bytes < length b.bytes → Ends (next t b'))
    → 0 < length b.bytes
    → Ends (serve_parsed h s b next p)
unfolding serve_parsed
serve_parsed-Ends h s b next more a go some_bytes = (_, refl)
serve_parsed-Ends h s b next err a go some_bytes = (_, refl)
serve_parsed-Ends h s b next (ok cmd n) (pos_n, in_buf, few) go some_bytes =
    let t = vc_dispatch h s cmd.args in
    if_Ends t.conn.closing (ServeEnd.closing, t, vc_buf_consume b n) (next t (vc_buf_consume b n))
      (go t (vc_buf_consume b n) (omega (arith, length-vc_buf_consume b n, pos_n, some_bytes)))

-- The loop ends after at most as many rounds as there are bytes.
pub serve_total :
    (h : Host) (n : ℕ) (s : Session) (b : Buf)
    → length b.bytes ≤ n
    → (r : ServeEnd × Session × Buf) × (serve h n s b ≡ some r)
unfolding serve
serve_total h zero s b few =
    let done : (length b.bytes == 0) ≡ true = ground arith in rw done (_, refl)
serve_total h (suc n) s b few = elim (Bool-cases (length b.bytes == 0)) [
  | inl done ↦ rw done (_, refl)
  | inr some_bytes ↦ rw some_bytes (
      serve_parsed-Ends h s b (serve h n) (resp_parse_command h.mem b.bytes)
        (resp_parse_command-Answers h.mem b.bytes)
        (λ t b' shorter. serve_total h n t b' (omega (arith, few, shorter))) (ground arith))
]

-- the commands one after another, as the writers print them
pub pipeline : List (List (List ℕ)) → List ℕ
pipeline [] = []
pipeline (ss ∷ more') = command_then ss (pipeline more')

unfoldable pub AllShort : List (List (List ℕ)) → Type 0
AllShort [] = Unit {0}
AllShort (ss ∷ more') = (length ss ≤ 128) × AreShort ss × AllShort more'

-- the commands dispatched one after another, until one closes the connection
pub dispatch_all : Host → Session → List (List (List ℕ)) → ServeEnd × Session
dispatch_all h s [] = (ServeEnd.waiting, s)
dispatch_all h s (ss ∷ more') =
    let s' = vc_dispatch h s (upper_cmd (map arg_of ss)) in
    let rest = dispatch_all h s' more' in if s'.conn.closing then (ServeEnd.closing, s') else rest

bulk_then-append : (s mid rest : List ℕ) → bulk_then s (mid ++ rest) ≡ bulk_then s mid ++ rest
unfolding bulk_then
bulk_then-append s mid rest = simp append_assoc

bulks_then-append :
    (ss : List (List ℕ)) (rest : List ℕ) → bulks_then ss rest ≡ bulks_then ss [] ++ rest
unfolding bulks_then
bulks_then-append [] rest = refl
bulks_then-append (s ∷ ss) rest =
    ap (bulk_then s) (bulks_then-append ss rest) ∙ bulk_then-append s (bulks_then ss []) rest

-- a printed command, and what follows it
command_then-append :
    (ss : List (List ℕ)) (rest : List ℕ) → command_then ss rest ≡ command_then ss [] ++ rest
unfolding command_then
command_then-append ss rest =
    ap (λ bs. b'*' ∷ decimal (length ss) ++ (13 ∷ 10 ∷ bs)) (bulks_then-append ss rest)
    ∙ sym (append_assoc (b'*' ∷ decimal (length ss)) (13 ∷ 10 ∷ bulks_then ss []) rest)

command_then_some : (ss : List (List ℕ)) → 0 < length (command_then ss [])
unfolding command_then
command_then_some ss = omega arith

-- what is left when a printed command is consumed
consume-command_then :
    (b : Buf) (ss : List (List ℕ)) (rest : List ℕ)
    → b.bytes ≡ command_then ss rest
    → (vc_buf_consume b (length (command_then ss rest) - length rest)).bytes ≡ rest
unfolding vc_buf_consume vc_buf_reset
consume-command_then b ss rest e =
    let c = command_then ss [] in
    let n = length (command_then ss rest) - length rest in
    let shape = command_then-append ss rest in
    let size = length-append c rest in
    let n_eq : n ≡ length c = omega (arith, ap length shape, size) in
    let all = ap length e ∙ ap length shape in
    elim (Bool-cases (leb (length b.bytes) n)) [
      | inl whole ↦ rw whole (empty_rest rest (omega (arith, leb→le _ _ whole, n_eq, all, size)))
      | inr part ↦ rw part (ap (drop n) (e ∙ shape) ∙ drop-append c rest n n_eq)
    ]
  where
    empty_rest : (xs : List ℕ) → length xs ≡ 0 → [] ≡ xs
    empty_rest [] q = refl
    empty_rest (x ∷ xs) q = absurd (omega arith)

command_then-longer :
    (ss : List (List ℕ)) (rest : List ℕ) → length rest < length (command_then ss rest)
command_then-longer ss rest = omega (
  arith,
  ap length (command_then-append ss rest),
  length-append (command_then ss []) rest,
  command_then_some ss,
)

serve-waiting :
    (h : Host) (n : ℕ) (s : Session) (b : Buf)
    → length b.bytes ≡ 0
    → serve h n s b ≡ some (ServeEnd.waiting, s, b)
unfolding serve
serve-waiting h zero s b e = let done : (length b.bytes == 0) ≡ true = ground arith in rw done refl
serve-waiting h (suc n) s b e =
    let done : (length b.bytes == 0) ≡ true = ground arith in rw done refl

-- the end of a round, and of a dispatch
by_closing :
    (c : Bool) (s' : Session) (b1 : Buf) (o : Option (ServeEnd × Session × Buf))
    (rest : ServeEnd × Session)
    → ((b' : Buf) × (o ≡ some (rest.0, rest.1, b')))
    → (b' : Buf) × ((if c then some (ServeEnd.closing, s', b1) else o)
        ≡ some (
          (if c then (ServeEnd.closing, s') else rest).0,
          (if c then (ServeEnd.closing, s') else rest).1,
          b',
        ))
by_closing true s' b1 o rest r = (b1, refl)
by_closing false s' b1 o rest r = r

-- Commands that have arrived whole, of at most 128 arguments of at most 65,536 bytes each, are
-- dispatched one after another in their order, each once, up to the first one that closes the
-- connection. This holds if `malloc` does not fail.
pub serve-dispatch_all :
    (h : Host) (all : (k : ℕ) → h.mem k ≡ true) (cs : List (List (List ℕ))) (n : ℕ) (s : Session)
    (b : Buf)
    → b.bytes ≡ pipeline cs
    → AllShort cs
    → length b.bytes ≤ n
    → (b' : Buf) × (serve h n s b ≡ some ((dispatch_all h s cs).0, (dispatch_all h s cs).1, b'))
unfolding serve serve_parsed pipeline AllShort dispatch_all
serve-dispatch_all h all [] n s b e short few =
    (b, serve-waiting h n s b (omega (arith, ap length e)))
serve-dispatch_all h all (ss ∷ cs) zero s b e (few_args, args_short, short) few =
    absurd (omega (arith, ap length e, command_then-longer ss (pipeline cs)))
serve-dispatch_all h all (ss ∷ cs) (suc n) s b e (few_args, args_short, short) few =
    let rest = pipeline cs in
    let longer = command_then-longer ss rest in
    let m = length (command_then ss rest) - length rest in
    let s' = vc_dispatch h s (upper_cmd (map arg_of ss)) in
    let b1 = vc_buf_consume b m in
    let left = consume-command_then b ss rest e in
    let (b2, done) =
      serve-dispatch_all h all cs n s' b1 left short
        (omega (arith, ap length left, ap length e, longer, few)) in
    let parsed =
      ap (resp_parse_command h.mem) e
      ∙ resp_parse_command-whole h.mem all ss rest few_args args_short in
    let some_bytes : (length b.bytes == 0) ≡ false = ground (arith, ap length e, longer) in
    let (b3, finished) =
      by_closing s'.conn.closing s' b1 (serve h n s' b1) (dispatch_all h s' cs) (b2, done) in
    (
      b3,
      ap
            (λ c.
              if c
              then some (ServeEnd.waiting, s, b)
              else serve_parsed h s b (serve h n) (resp_parse_command h.mem b.bytes))
            some_bytes
          ∙ ap (serve_parsed h s b (serve h n)) parsed
          ∙ finished,
    )

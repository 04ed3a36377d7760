-- ===== src/Game/Ends.antt =====
-- How the loops of `read_game` and `read_games` end (cw/game.py).
use mlb_baseball.Prelude.{
  is_some, ℕ, zero, suc, ◌+◌, ◌-◌, ◌≤◌, ◌<◌, ◌≡◌, refl, ap, Bool, true, false, Option, none, some,
  length, Text, codes, text_eq, if◌then◌else◌, arith,
}
use mlb_baseball.File.{CFile, open_file, bufsize, fgets, setpos, StrTok, strtok}
use mlb_baseball.File.Reads.{Read, piece, later, at_the_end, a_piece, fgets-Read}
use mlb_baseball.Game.Records.{new_game}
use mlb_baseball.Game.Pending.{Outcome, value, value_error, nothing_pending}
use mlb_baseball.Game.Reader.{Reading, read_record}
use mlb_baseball.Game.Whole.{
  Found, found, GameRead, game_read, with_line, read_loop, start_game, read_game, Yielded,
  yield_first, next_game, games_loop, read_games,
}

-- An outcome with the file at a place or behind it
data Ends (bytes : Text) (n : ℕ) : Option (Outcome GameRead) → Type 0 where
  returns :
      (g : Option Found) (f : CFile) → f.bytes ≡ bytes → n ≤ f.at → Ends bytes n (game_read g f)
  raises : Ends bytes n (some value_error)

Ends-earlier :
    {bytes : Text} {m n : ℕ} {o : Option (Outcome GameRead)}
    → m ≤ n
    → Ends bytes n o
    → Ends bytes m o
Ends-earlier h (returns g f b l) = returns g f b (omega (arith, h, l))
Ends-earlier h raises = raises

with_line-Ends :
    (again : Reading → Option (Outcome GameRead))
    → (f f' : CFile) (r : Reading) (line : Text) → f'.bytes ≡ f.bytes
    → ((r' : Reading) → Ends f.bytes f.at (again r'))
    → Ends f.bytes f.at (with_line again f f' r line)
unfolding setpos
with_line-Ends again f f' r line b g = typed ((strtok (some line) none).0)
  where
    back : Ends f.bytes f.at (game_read (found r) (setpos f.at f'))
    back = returns _ _ b (omega arith)

    tok : StrTok
    tok = (strtok (some line) none).1

    after : Outcome Reading → Option (Outcome GameRead)
    after o = elim o [ value r' ↦ again r' | value_error ↦ some value_error ]

    next : (o : Outcome Reading) → Ends f.bytes f.at (after o)
    next (value r') = g r'
    next value_error = raises

    unless : (o : Outcome Reading) → Bool → Option (Outcome GameRead)
    unless o is_id = elim is_id [ true ↦ game_read (found r) (setpos f.at f') | false ↦ after o ]

    tested : (is_id : Bool) (o : Outcome Reading) → Ends f.bytes f.at (unless o is_id)
    tested true o = back
    tested false o = next o

    typed :
        (rtype : Option Text)
        → Ends f.bytes f.at (elim rtype as (λ x. Option (Outcome GameRead)) [
          | none ↦ game_read (found r) (setpos f.at f')
          | some t ↦ unless (read_record t tok r) (text_eq t (codes "id"))
        ])
    typed none = back
    typed (some t) = tested (text_eq t (codes "id")) (read_record t tok r)

read_loop-Ends :
    (n : ℕ) (f : CFile) (r : Reading)
    → length f.bytes - f.at < n
    → Ends f.bytes f.at (read_loop n f r)
unfolding read_loop
read_loop-Ends zero f r h = absurd (omega (arith, h))
read_loop-Ends (suc n) f r h =
    from f.eof (fgets bufsize f) (fgets-Read bufsize f (omega arith)) (λ l.
      with_line-Ends (read_loop n (later bufsize f)) f (later bufsize f) r (piece bufsize f) refl
        (λ r'. Ends-earlier (omega arith) (read_loop-Ends n (later bufsize f) r' l)))
  where
    -- What is made of the outcome of `fgets`
    round : Bool → Option Text × CFile → Option (Outcome GameRead)
    round e x = elim e [
      | true ↦ game_read (found r) f
      | false ↦ elim x.0 [
        | none ↦ if x.1.eof then game_read (found r) x.1 else game_read none x.1
        | some line ↦ elim x.1.eof [
          | true ↦ game_read (found r) x.1
          | false ↦ with_line (read_loop n x.1) f x.1 r line
        ]
      ]
    ]

    from :
        (e : Bool) (x : Option Text × CFile)
        → Read bufsize f x
        → (length f.bytes - (f.at + length (piece bufsize f)) < n
            → Ends f.bytes f.at
                (with_line (read_loop n (later bufsize f)) f (later bufsize f) r (piece bufsize f)))
        → Ends f.bytes f.at (round e x)
    from true x y g = returns _ _ refl (omega arith)
    from false _ at_the_end g = returns _ _ refl (omega arith)
    from false _ (a_piece l one) g = stopped (later bufsize f).eof (g (omega (arith, h, l, one)))
      where
        line_read : Option (Outcome GameRead)
        line_read =
            with_line (read_loop n (later bufsize f)) f (later bufsize f) r (piece bufsize f)

        stopped :
            (b : Bool)
            → Ends f.bytes f.at line_read
            → Ends f.bytes f.at (elim b as (λ x. Option (Outcome GameRead)) [
              | true ↦ game_read (found r) (later bufsize f)
              | false ↦ line_read
            ])
        stopped true k = returns _ _ refl (omega arith)
        stopped false k = k

-- What `read_game` returns: a game stands behind the place that its reading began at.
data Reads (f : CFile) : Option (Outcome GameRead) → Type 0 where
  no_game : (f' : CFile) → Reads f (game_read none f')
  a_game :
      (g : Found) (f' : CFile)
      → f'.bytes ≡ f.bytes
      → f.at < f'.at
      → f.at < length f.bytes
      → Reads f (game_read (some g) f')
  game_raises : Reads f (some value_error)

Ends-Reads :
    (f : CFile) (n : ℕ) (o : Option (Outcome GameRead))
    → f.at < n
    → f.at < length f.bytes
    → Ends f.bytes n o
    → Reads f o
Ends-Reads f n _ h k (returns none f' b l) = no_game f'
Ends-Reads f n _ h k (returns (some g) f' b l) = a_game g f' b (omega (arith, h, l)) k
Ends-Reads f n _ h k raises = game_raises

start_game-Reads :
    (f : CFile) (first id : Option Text) (f' : CFile)
    → f'.bytes ≡ f.bytes
    → f.at < f'.at
    → f.at < length f.bytes
    → Reads f (start_game f' first id)
start_game-Reads f none id f' b l k = no_game f'
start_game-Reads f (some t) none f' b l k = no_game f'
start_game-Reads f (some t) (some id) f' b l k = from (text_eq t (codes "id"))
  where
    begun : Reading
    begun = record { game = new_game id; pending = nothing_pending; exact = true }

    whole : Ends f.bytes f'.at (read_loop (length f'.bytes + 1) f' begun)
    whole = rw⁻¹ b (read_loop-Ends (length f'.bytes + 1) f' begun (omega arith))

    from :
        (x : Bool)
        → Reads f (elim x as (λ y. Option (Outcome GameRead)) [
          | true ↦ read_loop (length f'.bytes + 1) f' begun
          | false ↦ game_read none f'
        ])
    from true = Ends-Reads f f'.at _ l k whole
    from false = no_game f'

yield_first-some :
    (g : Found) (o : Option Yielded) → is_some o ≡ true → is_some (yield_first g o) ≡ true
yield_first-some g none h = h
yield_first-some g (some y) h = refl

read_game-Reads : (f : CFile) → Reads f (read_game f)
unfolding read_game
read_game-Reads f = from (fgets bufsize f) (fgets-Read bufsize f (omega arith))
  where
    opened : Option Text × CFile → Option (Outcome GameRead)
    opened x = elim x.0 [
      | none ↦ game_read none x.1
      | some line ↦
          let (first, tok) = strtok (some line) none in
          let (id, tok') = strtok none tok in start_game x.1 first id
    ]

    from : (x : Option Text × CFile) → Read bufsize f x → Reads f (opened x)
    from _ at_the_end = no_game _
    from _ (a_piece l one) = start_game-Reads f _ _ (later bufsize f) refl (omega (arith, one)) l

games_loop-ends : (n : ℕ) (f : CFile) → length f.bytes - f.at < n → is_some (games_loop n f) ≡ true
unfolding games_loop
games_loop-ends zero f h = absurd (omega (arith, h))
games_loop-ends (suc n) f h = from (read_game f) (read_game-Reads f) (games_loop-ends n)
  where
    from :
        (o : Option (Outcome GameRead))
        → Reads f o
        → ((f' : CFile) → length f'.bytes - f'.at < n → is_some (games_loop n f') ≡ true)
        → is_some (next_game (games_loop n) o) ≡ true
    from _ (no_game f') g = refl
    from _ (a_game x f' b l k) g =
        yield_first-some x (games_loop n f') (g f' (omega (arith, h, l, k, ap length b)))
    from _ game_raises g = refl

-- `read_games` ends on every file, and `read_game` returns or raises each time: a round for each byte
-- of the file, and one more, is enough for the loops of both.
pub read_games-ends : (bytes : Text) → is_some (read_games bytes) ≡ true
unfolding read_games
read_games-ends bytes = games_loop-ends (length bytes + 1) (open_file bytes) (omega arith)

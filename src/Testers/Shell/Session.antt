-- ===== src/Testers/Shell/Session.antt =====
-- What a session with the shell is: each line is compared with the names of the table.
use pand_aossh.Prelude.{
  ℕ, suc, ◌-◌, ◌^◌, ◌<◌, ◌≡◌, refl, sym, ap, ◌∙◌, Bool, true, false, some, List, [], ◌∷◌, ◌++◌,
  arith, if◌then◌else◌, drop, length, length-drop, length-append, append_assoc, append-nil, All,
  ltb,
}
use pand_aossh.Prelude.Words.{slt}
use pand_aossh.Testers.Libuser.{codes, Request, Reply, u_print, u_readline}
use pand_aossh.Testers.Shell.{
  text, put, byte_at, Turn, again, left, overrun, end_line, obey, turn, shell_loop, shell,
}
use pand_aossh.Testers.Shell.Names.{
  same, IsChar, u_strcmp-same, programs, lookup, name_to_asid-lookup, say, turn_of, lookup_small,
  answer_lem,
}

obey-say : (w : List ℕ) → All IsChar w → obey w ≡ ((say w).0, turn_of (say w).1)
unfolding obey
obey-say [] h = refl
obey-say (c ∷ s) h =
    rw (u_strcmp-same (c ∷ s) (codes "exit") h (ground arith), name_to_asid-lookup (c ∷ s) h)
      (answer_lem (same (c ∷ s) (codes "exit")) (lookup (c ∷ s) programs) (lookup_small (c ∷ s)))

text_end : (w rest : List ℕ) → All IsChar w → text (w ++ 0 ∷ rest) ≡ w
unfolding text
text_end [] rest h = refl
text_end (c ∷ w) rest h = ground (arith, h.0, text_end w rest h.1)

byte_at_end : (w rest : List ℕ) (c : ℕ) → byte_at (length w) (w ++ c ∷ rest) ≡ c
unfolding byte_at
byte_at_end [] rest c = refl
byte_at_end (d ∷ w) rest c = byte_at_end w rest c

put_end : (w rest : List ℕ) (c d : ℕ) → put (length w) d (w ++ c ∷ rest) ≡ w ++ d ∷ rest
unfolding put
put_end [] rest c d = refl
put_end (e ∷ w) rest c d = ap (λ l. e ∷ l) (put_end w rest c d)

-- The reply of SYS5 to a line: the newline is stored and counted.
abbrev pub line : List ℕ → Reply
line w = record { stored = w ++ b'\n' ∷ []; result = suc (length w) }

abbrev pub prompt : List Request → List Request
prompt rest = u_print (codes "> ") ∷ u_readline ∷ rest

end_line_lem :
    (w rest : List ℕ)
    → suc (length w) < 2 ^ 31
    → end_line (suc (length w)) (w ++ b'\n' ∷ rest) ≡ some (w ++ 0 ∷ rest)
unfolding end_line
end_line_lem w rest h =
    let last : suc (length w) - 1 ≡ length w = omega arith in
    let pos : slt 0 (suc (length w)) ≡ true = ground arith in
    rw (last, pos, byte_at_end w rest b'\n', put_end w rest b'\n' 0) refl

turn_lem :
    (buf w : List ℕ)
    → All IsChar w
    → length buf ≡ 128
    → length w < 128
    → turn buf (line w)
      ≡ ((prompt (say w).0, turn_of (say w).1), w ++ 0 ∷ drop (suc (length w)) buf)
unfolding turn
turn_lem buf w h b l =
    let n : length (w ++ b'\n' ∷ []) ≡ suc (length w) =
      omega (arith, length-append {0} w (b'\n' ∷ [])) in
    let fits : ltb (length buf) (suc (length w)) ≡ false = ground arith in
    rw
      (
        n,
        fits,
        append_assoc w (b'\n' ∷ []) (drop (suc (length w)) buf),
        end_line_lem w (drop (suc (length w)) buf) (omega arith),
        text_end w (drop (suc (length w)) buf) h,
        obey-say w h,
      )
      refl

abbrev pub lines : List (List ℕ) → List Reply
lines [] = []
lines (w ∷ ws) = line w ∷ lines ws

-- The lines that a session may have: strings that fit the buffer.
abbrev pub IsWord : List ℕ → Type 0
IsWord w = All IsChar w × (length w < 128)

-- The session of a list of lines: to each the prompt and what the shell says, up to the one that
-- leaves it; then the prompt, if the lines end before.
pub session : List (List ℕ) → List Request
session [] = prompt []
session (w ∷ ws) = let rest = session ws in prompt ((say w).0 ++ (if (say w).1 then rest else []))

loop_end :
    (b : Bool) (out rest : List Request)
    → (elim (turn_of b) as (λ _. List Request) [ again ↦ out ++ rest | left ↦ out | overrun ↦ out ])
      ≡ out ++ (if b then rest else [])
loop_end true out rest = refl
loop_end false out rest = sym (append-nil out)

length-buf :
    (buf w : List ℕ)
    → length buf ≡ 128
    → length w < 128
    → length (w ++ 0 ∷ drop (suc (length w)) buf) ≡ 128
length-buf buf w b l = omega (
  arith,
  length-append {0} w (0 ∷ drop (suc (length w)) buf),
  length-drop {0} (suc (length w)) buf,
)

shell_loop-session :
    (ws : List (List ℕ)) (buf : List ℕ)
    → length buf ≡ 128
    → All IsWord ws
    → shell_loop buf (lines ws) ≡ session ws
unfolding shell_loop session
shell_loop-session [] buf b h = refl
shell_loop-session (w ∷ ws) buf b h =
    let next = w ++ 0 ∷ drop (suc (length w)) buf in
    let rest = shell_loop-session ws next (length-buf buf w b h.0.1) h.1 in
    let out = prompt (say w).0 in
    ap
      (λ (t : (List Request × Turn) × List ℕ). elim (t.0.1) as (λ _. List Request) [
        | again ↦ t.0.0 ++ shell_loop t.1 (lines ws)
        | left ↦ t.0.0
        | overrun ↦ t.0.0
      ])
      (turn_lem buf w h.0.0 b h.0.1)
    ∙ ap
        (λ (r : List Request). elim (turn_of (say w).1) as (λ _. List Request) [
          | again ↦ out ++ r
          | left ↦ out
          | overrun ↦ out
        ])
        rest
    ∙ loop_end (say w).1 out (session ws)

-- `main` of shell.c, whatever its buffer holds before, for lines that are strings of fewer than 128
-- characters: to each line it prompts, reads, and starts the program of that name in the table, says
-- that it does not know the name, or, for "exit", takes leave and terminates; an empty line has no
-- answer.
pub shell-session :
    (buf : List ℕ) (ws : List (List ℕ))
    → length buf ≡ 128
    → All IsWord ws
    → shell buf (lines ws)
      ≡ u_print (codes "PandOSsh shell\n")
        ∷ u_print (codes "comandi: echo fibEleven uname sl calc | exit\n")
        ∷ session ws
unfolding shell
shell-session buf ws b h = rw (shell_loop-session ws buf b h)

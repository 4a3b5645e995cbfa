-- ===== src/Testers/Shell.antt =====
-- testers/shell.c. `buf` is the list of its 128 characters.
pub mod Names
pub mod Session
use pand_aossh.Prelude.{
  ℕ, zero, suc, ◌+◌, ◌-◌, Bool, Option, none, some, List, [], ◌∷◌, ◌++◌, ◌==◌, ltb, leb, ◌&&◌,
  if◌then◌else◌, take, drop, length,
}
use pand_aossh.Prelude.Words.{sub32, minus, is_neg, slt}
use pand_aossh.Testers.Libuser.{codes, Request, Reply, u_print, u_readline, u_execute, u_terminate}

-- The difference of the first characters that are not the same, or 0; the NUL counts as 0.
unfoldable pub u_strcmp : (a b : List ℕ) → ℕ
u_strcmp [] [] = 0
u_strcmp [] (y ∷ b) = sub32 0 y
u_strcmp (x ∷ a) [] = x
u_strcmp (x ∷ a) (y ∷ b) = if x == y then u_strcmp a b else sub32 x y

unfoldable pub name_to_asid : List ℕ → ℕ
name_to_asid name =
    if u_strcmp name (codes "echo") == 0
    then 2
    else if u_strcmp name (codes "fibEleven") == 0
    then 3
    else if u_strcmp name (codes "uname") == 0
    then 4
    else if u_strcmp name (codes "sl") == 0
    then 5
    else if u_strcmp name (codes "calc") == 0
    then 6
    else minus 1

-- The string at the start of a buffer.
unfoldable pub text : List ℕ → List ℕ
text [] = []
text (c ∷ s) = if c == 0 then [] else c ∷ text s

-- `buf[i] = c`, inside the buffer.
unfoldable pub put : (i c : ℕ) → List ℕ → List ℕ
put i c [] = []
put zero c (_ ∷ s) = c ∷ s
put (suc i) c (d ∷ s) = d ∷ put i c s

-- `buf[i]`, inside the buffer.
unfoldable pub byte_at : (i : ℕ) → List ℕ → ℕ
byte_at i [] = 0
byte_at zero (c ∷ _) = c
byte_at (suc i) (_ ∷ s) = byte_at i s

-- How a turn of the loop ends.
pub data Turn : Type 0 where
  again : Turn
  left : Turn
  overrun : Turn

-- The newline goes, and the string ends; a write outside the buffer is `none`.
unfoldable pub end_line : (n : ℕ) → List ℕ → Option (List ℕ)
end_line n buf =
    if slt 0 n && (byte_at (n - 1) buf == b'\n')
    then some (put (n - 1) 0 buf)
    else if ltb n (length buf)
    then some (put n 0 buf)
    else none

-- What the shell does with the text of a line.
unfoldable pub obey : List ℕ → List Request × Turn
obey [] = ([], again)
obey (c ∷ s) =
    let asid = name_to_asid (c ∷ s) in
    if u_strcmp (c ∷ s) (codes "exit") == 0
    then (u_print (codes "shell: arrivederci\n") ∷ u_terminate ∷ [], left)
    else if is_neg asid
    then (u_print (codes "shell: programma sconosciuto\n") ∷ [], again)
    else (u_execute asid ∷ [], again)

-- One turn: the prompt, the line, and what it asks for. SYS5 writes at the start of the buffer; a
-- line that is longer overruns it.
unfoldable pub turn : List ℕ → Reply → (List Request × Turn) × List ℕ
turn buf r =
    if ltb (length buf) (length r.stored)
    then ((u_print (codes "> ") ∷ u_readline ∷ [], overrun), buf)
    else (let buf1 = r.stored ++ drop (length r.stored) buf in
        elim (end_line r.result buf1) [
          | none ↦ ((u_print (codes "> ") ∷ u_readline ∷ [], overrun), buf1)
          | some buf2 ↦
              let out = obey (text buf2) in
              ((u_print (codes "> ") ∷ u_readline ∷ out.0, out.1), buf2)
        ])

-- The loop on the lines that come; at their end the shell waits for the next.
unfoldable pub shell_loop : List ℕ → List Reply → List Request
shell_loop buf [] = u_print (codes "> ") ∷ u_readline ∷ []
shell_loop buf (r ∷ rs) =
    let t = turn buf r in
    let rest = shell_loop t.1 rs in
    elim (t.0.1) [ again ↦ t.0.0 ++ rest | left ↦ t.0.0 | overrun ↦ t.0.0 ]

-- `main`, with what the stack holds in the buffer.
unfoldable pub shell : List ℕ → List Reply → List Request
shell buf rs =
    u_print (codes "PandOSsh shell\n")
    ∷ u_print (codes "comandi: echo fibEleven uname sl calc | exit\n")
    ∷ shell_loop buf rs

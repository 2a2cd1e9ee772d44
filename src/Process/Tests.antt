-- ===== src/Process/Tests.antt =====
-- A small table of processes for src/exec/process.c: init, a shell and two children of it.
use utopia.Base.{
  ℕ, ◌≡◌, refl, sym, ap, ◌∙◌, inl, inr, Bool, true, false, List, [], ◌∷◌, arith, ℤ, pos, negsuc,
}
use utopia.Process.{Process, reaped, wait_child, terminate, close_files, has_parent, unlink}
use utopia.Process.Reap.{survivors, wait_child-terminate}
use utopia.Process.Terminate.{Awaited, Settled, terminate-Settled}

abbrev process : ℕ → ℕ → ℕ → Bool → ℤ → Process
process addr pid ppid zombie exit_status = record {
  addr = addr;
  pid = pid;
  ppid = ppid;
  zombie = zombie;
  exit_status = exit_status;
  used = true ∷ true ∷ [];
}

abbrev init : Process
init = process 100 1 0 false (pos 0)

abbrev shell : Process
shell = process 200 2 1 false (pos 0)

abbrev editor : Process
editor = process 300 3 2 false (pos 0)

abbrev dead : Process
dead = process 400 4 2 true (pos 7)

abbrev table : List Process
table = dead ∷ editor ∷ shell ∷ init ∷ []

wait_run : wait_child 2 (negsuc 0) table ≡ (reaped 4 (pos 7), editor ∷ shell ∷ init ∷ [])
unfolding wait_child
wait_run = refl

-- The shell exits: init adopts its children and the shell waits for init.
terminate_run :
    terminate shell table
    ≡ process 400 4 1 true (pos 7)
      ∷ process 300 3 1 false (pos 0)
      ∷ record (close_files shell) { zombie = true }
      ∷ init
      ∷ []
unfolding terminate
terminate_run = refl

-- The only zombie is a child of the shell.
shell-Awaited : Awaited 200 2 table
unfolding Awaited
shell-Awaited z (inl e) ne dead other parent = absurd (other (ap (λ (x : Process). x.ppid) e))
shell-Awaited z (inr (inl e)) ne dead other parent =
    let k : false ≡ true = sym (ap (λ (x : Process). x.zombie) e) ∙ dead in absurd (cc)
shell-Awaited z (inr (inr (inl e))) ne dead other parent =
    let k : false ≡ true = sym (ap (λ (x : Process). x.zombie) e) ∙ dead in absurd (cc)
shell-Awaited z (inr (inr (inr (inl e)))) ne dead other parent =
    let k : false ≡ true = sym (ap (λ (x : Process). x.zombie) e) ∙ dead in absurd (cc)
shell-Awaited z (inr (inr (inr (inr h)))) ne dead other parent = absurd h

terminate-Settled_example : Settled shell table (terminate shell table)
terminate-Settled_example = terminate-Settled shell table (omega arith) shell-Awaited

wait_child-terminate_example :
    wait_child 2 (pos 3) (terminate editor table)
    ≡ (reaped 3 (pos 0), unlink 300 (survivors editor table))
wait_child-terminate_example =
    wait_child-terminate editor 2 table (inr (omega arith, omega arith, inl (refl, omega arith)))
      refl (omega arith) (unfold has_parent in refl)

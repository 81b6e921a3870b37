-- ===== src/Kernel/Editor/Tests.antt =====
-- A run of the line editor of kernel/main.c.
use sg2002_kraken.Base.{◌≡◌, refl, [], ◌∷◌}
use sg2002_kraken.Console.{codes}
use sg2002_kraken.Kernel.Editor.{Command, no_line, edit}

edit-run :
    (edit (codes "run\r\n\nhelp\nst") no_line).0
    ≡ Command.run ∷ Command.blank ∷ Command.unknown ∷ []
unfolding edit
edit-run = refl

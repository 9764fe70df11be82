-- ===== src/Host/Banner.antt =====
-- The banner of the test screen, tn3270d/tn3270_host.c.
use linux_sna.Base.{List, [], ◌∷◌, Bytes, codes}

-- ascii_banner
abbrev pub ascii_banner : List Bytes
ascii_banner =
    codes "                                                                  #####        "
    ∷ codes "                                                                 #######       "
    ∷ codes "                    @                                            ##O#O##       "
    ∷ codes "   ######          @@#                                           #VVVVV#       "
    ∷ codes "     ##             #                                          ##  VVV  ##     "
    ∷ codes "     ##         @@@   ### ####   ###    ###  ##### ######     #          ##    "
    ∷ codes "     ##        @  @#   ###    ##  ##     ##    ###  ##       #            ##   "
    ∷ codes "     ##       @   @#   ##     ##  ##     ##      ###         #            ###  "
    ∷ codes "     ##          @@#   ##     ##  ##     ##      ###        QQ#           ##Q  "
    ∷ codes "     ##       # @@#    ##     ##  ##     ##     ## ##     QQQQQQ#       #QQQQQQ"
    ∷ codes "     ##      ## @@# #  ##     ##  ###   ###    ##   ##    QQQQQQQ#     #QQQQQQQ"
    ∷ codes "   ############  ###  ####   ####   #### ### ##### ######   QQQQQ#######QQQQQ  "
    ∷ codes "                                                                               "
    ∷ codes "                                                                               "
    ∷ codes "                            Linux-SNA TN3270 server                            "
    ∷ codes "                       (Press an AID key to disconnect)                        "
    ∷ []

-- ===== src/Drivers/Mdbx/Modes.antt =====
-- The settings of src/drivers/ia_mdbx.c, and the flags that they make.
use ioarena.Base.{Bool, true, false, Option, none, some, if◌then◌else◌}
use ioarena.Config.Names.{SyncMode, WalMode}

-- The flags of mdbx_env_open that the driver uses. MDBX_SYNC_DURABLE is 0.
pub data MdbxFlag : Type 0 where
  mdbx_liforeclaim mdbx_coalesce mdbx_exclusive mdbx_pageperturb mdbx_nomeminit mdbx_nordahead
        mdbx_nometasync :
      MdbxFlag
  mdbx_safe_nosync mdbx_writemap mdbx_utterly_nosync : MdbxFlag

-- `struct mdbx_opts`: `none` is ia_opt_bool_default, and a Boolean is ia_opt_bool_off or _on.
pub record MdbxOpts : Type 0 where
  pub liforeclaim : Option Bool
  pub coalesce : Option Bool
  pub exclusive : Option Bool
  pub pageperturb : Option Bool
  pub nomeminit : Option Bool
  pub nordahead : Option Bool
  pub nometasync : Option Bool

-- A test of equal flags.
unfoldable pub same_flag : MdbxFlag → MdbxFlag → Bool
same_flag MdbxFlag.mdbx_liforeclaim MdbxFlag.mdbx_liforeclaim = true
same_flag MdbxFlag.mdbx_coalesce MdbxFlag.mdbx_coalesce = true
same_flag MdbxFlag.mdbx_exclusive MdbxFlag.mdbx_exclusive = true
same_flag MdbxFlag.mdbx_pageperturb MdbxFlag.mdbx_pageperturb = true
same_flag MdbxFlag.mdbx_nomeminit MdbxFlag.mdbx_nomeminit = true
same_flag MdbxFlag.mdbx_nordahead MdbxFlag.mdbx_nordahead = true
same_flag MdbxFlag.mdbx_nometasync MdbxFlag.mdbx_nometasync = true
same_flag MdbxFlag.mdbx_safe_nosync MdbxFlag.mdbx_safe_nosync = true
same_flag MdbxFlag.mdbx_writemap MdbxFlag.mdbx_writemap = true
same_flag MdbxFlag.mdbx_utterly_nosync MdbxFlag.mdbx_utterly_nosync = true
same_flag f f' = false

-- flags | opt, and flags & ~opt
unfoldable pub with_flag : MdbxFlag → Bool → (MdbxFlag → Bool) → MdbxFlag → Bool
with_flag opt on flags f = if same_flag opt f then on else flags f

unfoldable pub peek_option_bool : (MdbxFlag → Bool) → MdbxFlag → Option Bool → MdbxFlag → Bool
peek_option_bool dflt opt none f = dflt f
peek_option_bool dflt opt (some on) f = with_flag opt on dflt f

-- The flags of a sync mode.
unfoldable pub mdbx_syncflags : SyncMode → MdbxFlag → Bool
mdbx_syncflags SyncMode.ia_sync MdbxFlag.mdbx_liforeclaim = true
mdbx_syncflags SyncMode.ia_sync f = false
mdbx_syncflags SyncMode.ia_lazy MdbxFlag.mdbx_safe_nosync = true
mdbx_syncflags SyncMode.ia_lazy MdbxFlag.mdbx_nometasync = true
mdbx_syncflags SyncMode.ia_lazy f = false
mdbx_syncflags SyncMode.ia_nosync MdbxFlag.mdbx_writemap = true
mdbx_syncflags SyncMode.ia_nosync MdbxFlag.mdbx_utterly_nosync = true
mdbx_syncflags SyncMode.ia_nosync f = false

-- What the wal mode changes in them.
unfoldable pub mdbx_walflags : WalMode → (MdbxFlag → Bool) → MdbxFlag → Bool
mdbx_walflags WalMode.ia_wal_indef flags f = flags f
mdbx_walflags WalMode.ia_wal_off flags f = with_flag MdbxFlag.mdbx_nometasync false flags f
mdbx_walflags WalMode.ia_wal_on flags f = with_flag MdbxFlag.mdbx_nometasync true flags f

-- The flags that `ia_mdbx_open` opens the environment with.
unfoldable pub mdbx_modeflags : SyncMode → WalMode → MdbxOpts → MdbxFlag → Bool
mdbx_modeflags sync wal globals =
    peek_option_bool
      (peek_option_bool
        (peek_option_bool
          (peek_option_bool
            (peek_option_bool
              (peek_option_bool
                (peek_option_bool (mdbx_walflags wal (mdbx_syncflags sync))
                  MdbxFlag.mdbx_liforeclaim globals.liforeclaim)
                MdbxFlag.mdbx_coalesce globals.coalesce)
              MdbxFlag.mdbx_exclusive globals.exclusive)
            MdbxFlag.mdbx_pageperturb globals.pageperturb)
          MdbxFlag.mdbx_nomeminit globals.nomeminit)
        MdbxFlag.mdbx_nordahead globals.nordahead)
      MdbxFlag.mdbx_nometasync globals.nometasync
